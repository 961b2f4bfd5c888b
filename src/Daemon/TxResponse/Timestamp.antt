-- ===== src/Daemon/TxResponse/Timestamp.antt =====
-- `parse_timestamp` and the conversion of a node's response in cw-orch-daemon/src/tx_resp.rs
use Prim.Native.Char.{code}
use cw_orchestrator.Common.{
  ℕ, String, List, map, Outcome, ok, err, panic, ◌>>=◌, ◌+◌, ◌-◌, if◌then◌else◌, ltb, leb, map_ok,
  ◌≡◌, ◌∙◌, refl, arith, ◌≤◌,
}
use cw_orchestrator.Common.Text.{contains}
use cw_orchestrator.Daemon.Error.{DaemonError, std_err}
use cw_orchestrator.Daemon.TxResponse.{AbciMessageLog, AbciEvent, CosmTxResponse, msg_from}

-- `char::len_utf8` of a character's number
abbrev pub len_utf8 : ℕ → ℕ
len_utf8 n = if ltb n 0x80 then 1 else if ltb n 0x800 then 2 else if ltb n 0x10000 then 3 else 4

-- `s.len()`, in bytes
unfoldable pub len : String → ℕ
len String.[] = 0
len (String.◌∷◌ c s) = len_utf8 (code c) + len s

abbrev prepend : Prim.Native.Char.Char → Outcome DaemonError String → Outcome DaemonError String
prepend c r = map_ok (λ s. String.◌∷◌ c s) r

-- `&s[0..n]`, which panics past the end and within a character
unfoldable pub slice : ℕ → String → Outcome DaemonError String
slice n String.[] = if leb n 0 then ok String.[] else panic
slice n (String.◌∷◌ c s) =
    let w = len_utf8 (code c) in
    let rest = slice (n - w) s in
    if leb n 0 then ok String.[] else if ltb n w then panic else prepend c rest

len_utf8_positive : (n : ℕ) → 1 ≤ len_utf8 n
len_utf8_positive n = ground arith

-- The slice up to the length is the whole text.
pub slice-len : (s : String) → slice (len s) s ≡ ok s
unfolding slice len
slice-len String.[] = refl
slice-len (String.◌∷◌ c s) =
    reaches (len_utf8 (code c)) (len s) (len_utf8_positive (code c)) _
    ∙ rw (back (len_utf8 (code c)) (len s), slice-len s) refl
  where
    back : (w m : ℕ) → w + m - w ≡ m
    back w m = omega arith

    reaches :
        (w m : ℕ)
        → 1 ≤ w
        → (r : Outcome DaemonError String)
        → (if leb (w + m) 0 then ok String.[] else if ltb (w + m) w then panic else r) ≡ r
    reaches w m h r = ground arith

-- What the conversion relies on: `NaiveDateTime::parse_from_str` with its error, at a text and a
-- format, as the time in UTC.
pub record Clock (Time : Type 0) : Type 0 where
  pub parse_from_str : String → String → Outcome String Time

-- The node's message. Its signed numbers are read modulo 2 ^ 64, as the casts of the source do.
pub record NodeTxResponse (Bytes : Type 0) : Type 0 where
  pub height : ℕ
  pub txhash : String
  pub codespace : String
  pub code : ℕ
  pub payload : String
  pub raw_log : String
  pub logs : List AbciMessageLog
  pub info : String
  pub gas_wanted : ℕ
  pub gas_used : ℕ
  pub timestamp : String
  pub events : List (AbciEvent Bytes)

module _ {Time : Type 0} (clock : Clock Time) where
  abbrev last_try : Outcome String Time → Outcome DaemonError Time
  last_try (ok t) = ok t
  last_try (err e) = err (std_err e)
  last_try panic = panic

  abbrev or_try : Outcome String Time → Outcome DaemonError Time → Outcome DaemonError Time
  or_try (ok t) other = ok t
  or_try (err e) other = other
  or_try panic other = panic

  -- The four formats in their order, on the whole text and on the text without its last four bytes.
  unfoldable pub attempts : String → String → Outcome DaemonError Time
  attempts s sliced = or_try (clock.parse_from_str sliced "%Y-%m-%dT%H:%M:%S%.f") (
      or_try (clock.parse_from_str s "%Y-%m-%dT%H:%M:%S.%f%:z") (
        or_try (clock.parse_from_str sliced "%Y-%m-%dT%H:%M:%SZ")
          (last_try (clock.parse_from_str s "%Y-%m-%dT%H:%M:%S.%fZ"))))

  unfoldable pub parse_timestamp : String → Outcome DaemonError Time
  unfolding attempts
  parse_timestamp s =
      slice (if contains s "." then len s - 4 else len s) s >>= λ sliced. attempts s sliced

  -- `parse_timestamp(..).unwrap()`
  abbrev unwrap_time : Outcome DaemonError Time → Outcome DaemonError Time
  unwrap_time (ok t) = ok t
  unwrap_time (err e) = panic
  unwrap_time panic = panic

  -- `From<TxResponse>`
  unfoldable pub tx_response_from :
      {Bytes : Type 0} → NodeTxResponse Bytes → Outcome DaemonError (CosmTxResponse Bytes Time)
  tx_response_from tx = unwrap_time (parse_timestamp tx.timestamp) >>= λ time. ok (record {
    height = tx.height;
    txhash = tx.txhash;
    codespace = tx.codespace;
    code = tx.code;
    payload = tx.payload;
    raw_log = tx.raw_log;
    logs = map msg_from tx.logs;
    info = tx.info;
    gas_wanted = tx.gas_wanted;
    gas_used = tx.gas_used;
    timestamp = time;
    events = tx.events;
  })
