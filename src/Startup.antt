-- ===== src/Startup.antt =====
-- web/src/bootstrapHydration.ts: the page starts with a small bootstrap response, and fetches the whole
-- public state after it; where the bootstrap fails it fetches the state at once. A call of a callback
-- is an entry of a list, in order.
use mc_carto_live.Prelude.{Bool, true, false, Option, none, some, List, [], ◌∷◌, ◌⁇◌}
use mc_carto_live.Prelude.JsValue.{JsNumbers}
use mc_carto_live.Api.Data.{PublicLiveState}
use mc_carto_live.Api.Events.{PublicBootstrapResponse}

module _ {N : Type 0} where
  unfoldable pub bootstrap_to_live_state : PublicBootstrapResponse N → PublicLiveState N
  bootstrap_to_live_state bootstrap = record {
    server_time = bootstrap.server_time;
    map = bootstrap.map;
    nodes = [];
    routes = [];
    recent_pulses = [];
    recent_activity = bootstrap.recent_activity;
    stats = record bootstrap.stats { latest_seq = some bootstrap.latest_seq };
  }

module _ {N : Type 0} (js : JsNumbers N) where
  unfoldable pub public_state_snapshot_is_current : N → PublicLiveState N → Bool
  public_state_snapshot_is_current current_seq snapshot =
      js.le (js.max (js.numeral 0) current_seq) (snapshot.stats.latest_seq ⁇ js.numeral 0)

-- What `startBootstrapFirstHydration` does: `defer_state` is the call of `deferState`.
pub data HydrationCall (B S : Type 0) : Type 0 where
  apply_bootstrap : B → HydrationCall B S
  defer_state : HydrationCall B S
  apply_state : S → HydrationCall B S
  on_deferred_state_error : HydrationCall B S

pub data HydrationResult : Type 0 where
  bootstrapped state_fallback rejected : HydrationResult

module _ {B S : Type 0} where
  -- A fetch that fails is none. `throws` says that `applyBootstrap` does.
  unfoldable pub start_bootstrap_first_hydration :
      Option B → Bool → Option S → List (HydrationCall B S) × HydrationResult
  start_bootstrap_first_hydration none throws none = ([], rejected)
  start_bootstrap_first_hydration none throws (some state) =
      (apply_state state ∷ [], state_fallback)
  start_bootstrap_first_hydration (some b) false fetched =
      (apply_bootstrap b ∷ defer_state ∷ [], bootstrapped)
  start_bootstrap_first_hydration (some b) true none = (apply_bootstrap b ∷ [], rejected)
  start_bootstrap_first_hydration (some b) true (some state) =
      (apply_bootstrap b ∷ apply_state state ∷ [], state_fallback)

  -- The deferred task, where nothing that it calls throws.
  unfoldable pub deferred_state : Option S → List (HydrationCall B S)
  deferred_state none = on_deferred_state_error ∷ []
  deferred_state (some state) = apply_state state ∷ []
