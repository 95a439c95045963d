-- ===== src/Rpc.antt =====
-- wlnr/relayinterface: the calls between the metaserver and the relay, over RPC.
pub mod ToRelay
pub mod ToMetaserver
pub mod RelayMethods
pub mod MetaserverMethods
pub mod Reach
pub mod Served
pub mod Told
pub mod Bounds
pub mod Hosting
use widelands_metaserver.Base.{ℕ, Bool, Option, Bytes, ◌≡◌, refl, ◌⊎◌, inl, inr}

-- rpc_data.go
pub record GameData : Type 0 where
  pub name : Bytes
  pub password : Bytes

-- The outcome of a call of net/rpc: what was answered, rpc.ErrShutdown, or another error, such as the
-- error that the method returned.
pub data Outcome : Type 0 where
  answered : Bool → Outcome
  err_shutdown : Outcome
  err_other : Outcome

pub Outcome-cases :
    (o : Outcome) → ((b : Bool) × (o ≡ answered b)) ⊎ ((o ≡ err_other) ⊎ (o ≡ err_shutdown))
Outcome-cases (answered b) = inl (b, refl)
Outcome-cases err_other = inr (inl refl)
Outcome-cases err_shutdown = inr (inr refl)

-- net.DialTimeout with jsonrpc.NewClient, and Call. `W` is the state of the world outside; what is
-- dialled is a number. A call is given the connection, the name of the method and its argument.
pub record Transport (W : Type 0) : Type 0 where
  pub dial : Bytes → W → Option ℕ × W
  pub call : ℕ → Bytes → GameData → W → Outcome × W
