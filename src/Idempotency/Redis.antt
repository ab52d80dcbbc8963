-- ===== src/Idempotency/Redis.antt =====
-- The commands of Redis that pyflow_runtime/idempotency.py uses, with what it documents of them,
-- and the state that the program keeps under a key. Python reads the JSON text back as it was
-- written; the Lua scripts decode and encode it with cjson.
use Prim.Native.String.{◌++◌}
use python_flow_hub.Prelude.{
  ℕ, suc, ◌<◌, String, ◌≡◌, Bool, false, Option, some, if◌then◌else◌, ◌==◌,
}
use python_flow_hub.Value.{Value}

-- A missing "result" reads as `null`, and a missing "reply_sent" as false.
pub record State : Type 0 where
  pub status : String
  pub owner_pod : String
  pub fence_token : ℕ
  pub lease_expire_at : ℕ
  pub result : Value
  pub reply_sent : Bool

-- Texts and counters live under keys of one name space. A counter that is missing counts as 0.
pub record Redis : Type 1 where
  pub Server : Type 0
  pub get : Server → String → Option State
  pub counter : Server → String → ℕ
  pub set : Server → String → State → (ex : ℕ) → Server
  pub incr : Server → String → Server
  pub expire : Server → String → (ttl : ℕ) → Server
  -- What a value is after `cjson.decode` and `cjson.encode`: an empty list comes back as an empty
  -- dictionary, and a long number with fewer digits.
  pub cjson : Value → Value
  -- A value that is set with a time to live of a second or more can be read back at once.
  pub get-set :
      (s : Server) (k j : String) (v : State) (ex : ℕ)
      → 0 < ex
      → get (set s k v ex) j ≡ (if k == j then some v else get s j)
  pub counter-set :
      (s : Server) (k j : String) (v : State) (ex : ℕ)
      → (k == j) ≡ false
      → counter (set s k v ex) j ≡ counter s j
  pub get-incr : (s : Server) (k j : String) → (k == j) ≡ false → get (incr s k) j ≡ get s j
  pub counter-incr : (s : Server) (k : String) → counter (incr s k) k ≡ suc (counter s k)
  pub get-expire :
      (s : Server) (k j : String) (ttl : ℕ) → (k == j) ≡ false → get (expire s k ttl) j ≡ get s j
  pub counter-expire :
      (s : Server) (k : String) (ttl : ℕ) → 0 < ttl → counter (expire s k ttl) k ≡ counter s k

-- `state_key` and `fence_key`
unfoldable pub state_key : String → String
state_key idem_id = "pyflow:exec:state:{" ++ (idem_id ++ "}")

unfoldable pub fence_key : String → String
fence_key idem_id = "pyflow:exec:fence:{" ++ (idem_id ++ "}")
