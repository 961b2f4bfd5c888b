-- ===== src/Interchain/DaemonEnv/Searching.antt =====
-- How the search for the creation of a channel ends, in
-- packages/interchain/interchain-daemon/src/interchain_env.rs.
use cw_orchestrator.Common.{
  ℕ, zero, suc, String, ◌≡◌, ◌⊎◌, inl, inr, refl, Option, some, Outcome, ok, err, panic,
  Outcome-cases, Option-cases,
}
use cw_orchestrator.Interchain.Channel.{InterchainChannel}
use cw_orchestrator.Interchain.Environment.{ChannelCreation}
use cw_orchestrator.Interchain.Inspector.{InterchainDaemonError, channel_creation_events_not_found}
use cw_orchestrator.Interchain.DaemonEnv.{
  Creations, get_last_channel_creation, all_found, search_creation, find_channel_creation_tx,
  attempts,
}

module _ {N C R : Type 0} (q : Creations N C R) (from : String)
    (channel : InterchainChannel C) where
  -- The creation was found by one pass over the four searches.
  abbrev pub WasFound : ChannelCreation R → Type 0
  WasFound creation =
      (n : N) × (c : ChannelCreation (Option R)) × ((get_last_channel_creation q from channel n).0
        ≡ ok c)
      × (all_found q c ≡ some creation)

  -- How the loop ends: it found the creation, reports that there is none, or a pass panicked.
  abbrev pub EndsAs : Outcome (InterchainDaemonError C) (ChannelCreation R) → Type 0
  EndsAs r =
      ((creation : ChannelCreation R) × (r ≡ ok creation) × WasFound creation)
      ⊎ (r ≡ err (channel_creation_events_not_found from channel))
      ⊎ ((r ≡ panic) × ((n : N) × ((get_last_channel_creation q from channel n).0 ≡ panic)))

  search_creation-EndsAs : (rounds : ℕ) (n : N) → EndsAs (search_creation q rounds from channel n).0
  unfolding search_creation
  search_creation-EndsAs zero n = inr (inl refl)
  search_creation-EndsAs (suc rounds) n =
      elim (Outcome-cases (get_last_channel_creation q from channel n).0) [
        | inl (c, e) ↦ elim (Option-cases (all_found q c)) [
          | inl missing ↦ rw (e, missing) (search_creation-EndsAs rounds _)
          | inr (creation, found) ↦ rw (e, found) (inl (creation, refl, (n, c, e, found)))
        ]
        | inr (inl (x, e)) ↦ rw e (inr (inl refl))
        | inr (inr e) ↦ rw e (inr (inr (refl, (n, e))))
      ]

  -- The search for the creation of a channel ends: with the four transactions, all from one pass; with
  -- the error that they are not found, whatever error the passes had; or in a panic of a pass.
  pub find_channel_creation_tx-EndsAs :
      (n : N) → EndsAs (find_channel_creation_tx q from channel n).0
  unfolding find_channel_creation_tx
  find_channel_creation_tx-EndsAs n = search_creation-EndsAs attempts n
