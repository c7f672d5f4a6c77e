-- ===== src/Realtime/Socket.antt =====
-- The slice of a WebSocket of the `ws` library that src/realtime/realtime.gateway.ts uses.
use zudue_api.Base.{ℕ, String, Bool, false, ◌≡◌, Option, some}
use zudue_api.Realtime.Types.{ServerMessage}

-- `close` is `none` where the library throws (a reason that is too long). After `close` or `terminate`
-- the state of a socket is no longer OPEN, and `send` opens none. `slice` is the method
-- of the language's texts.
pub record SocketApi : Type 1 where
  pub Ws : Type 0
  pub is_open : Ws → Bool
  pub buffered_amount : Ws → ℕ
  pub close : ℕ → String → Ws → Option Ws
  pub terminate : Ws → Ws
  pub send : ServerMessage → Ws → Ws
  pub slice : String → ℕ → ℕ → String
  pub close-is_open : (c : ℕ) (r : String) (w w' : Ws) → close c r w ≡ some w' → is_open w' ≡ false
  pub terminate-is_open : (w : Ws) → is_open (terminate w) ≡ false
