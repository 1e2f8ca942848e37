-- ===== src/Live/Wire.antt =====
-- What the cursor and the queue read of a `PublicLiveEnvelope` (web/src/types.ts): its sequence
-- number as it came off the wire, and its three times. `seq` may be any JavaScript number, since
-- the client tests it before it trusts it.
use mc_carto_live.Prelude.{ℕ, Option}
use mc_carto_live.Prelude.Int.{JsNumber}

pub record Wire (A : Type 0) : Type 0 where
  pub seq : A → Option JsNumber
  pub received_at : A → Option ℕ
  pub server_time : A → Option ℕ
  pub display_at : A → Option ℕ
