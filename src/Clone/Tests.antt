-- ===== src/Clone/Tests.antt =====
-- A clone over a deployment that a mock state stands for.

use cw_orchestrator.Core.State.{StateLaws}
use cw_orchestrator.Clone.State.{clone_state}
use cw_orchestrator.Clone.State.Laws.{IsAny, clone_state-StateLaws}
use cw_orchestrator.Mock.State as Mocks

clone_state-StateLaws_example : StateLaws (clone_state Mocks.mock_state) (IsAny Mocks.mock_state)
clone_state-StateLaws_example = clone_state-StateLaws Mocks.mock_state
