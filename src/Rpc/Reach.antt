-- ===== src/Rpc/Reach.antt =====
-- wlnr/relayinterface: what net/rpc and the network are relied on for.
use widelands_metaserver.Base.{ℕ, ◌≤◌, suc, ◌≡◌, ◌⊎◌, some, Bytes}
use widelands_metaserver.Rpc.{GameData, Outcome, err_shutdown, Transport}

module _ {W S : Type 0} (t : Transport W) (other : W → S) where
  -- On a connection that is up, a call runs the method in the other program, whose state is a part of the
  -- world, and gives what the method gives.
  abbrev pub Runs : ℕ → Bytes → (GameData → S → Outcome × S) → W → Type 0
  Runs k method f w =
      (d : GameData)
      → ((t.call k method d w).0 ≡ (f d (other w)).0)
        × (other (t.call k method d w).1 ≡ (f d (other w)).1)

  -- On a connection that is shut down, a call fails with rpc.ErrShutdown, and the other program does not
  -- hear of it.
  abbrev pub Shut : ℕ → Bytes → W → Type 0
  Shut k method w =
      (d : GameData)
      → ((t.call k method d w).0 ≡ err_shutdown) × (other (t.call k method d w).1 ≡ other w)

  -- Dialling works: it gives a connection that is up, and does not change the other program.
  abbrev pub Dials : Bytes → Bytes → (GameData → S → Outcome × S) → W → Type 0
  Dials port method f w =
      (k : ℕ) × ((t.dial port w).0 ≡ some k)
      × (other (t.dial port w).1 ≡ other w)
      × Runs k method f (t.dial port w).1

  -- The connection is up, or it is shut down and dialling works after the call that finds out.
  abbrev pub Reaches : Bytes → ℕ → Bytes → (GameData → S → Outcome × S) → W → Type 0
  Reaches port k method f w =
      Runs k method f w
      ⊎ (Shut k method w × ((d : GameData) → Dials port method f (t.call k method d w).1))

-- A measure of the world that counts calls at least.
pub record CountsCalls {W : Type 0} (t : Transport W) (count : W → ℕ) : Type 0 where
  pub dial : (port : Bytes) (w : W) → count (t.dial port w).1 ≤ count w
  pub call :
      (k : ℕ) (method : Bytes) (d : GameData) (w : W)
      → count (t.call k method d w).1 ≤ suc (count w)
