-- ===== src/Crates.antt =====
-- The crates that the client keeps its shared state in, which are not part of the repository:
-- `DashMap` of dashmap, whose keys here are integers, and the bounded `mpsc` channel of tokio. The laws
-- are what their documentation says of one call after the other.
use rabbitmq_stream_rust_cli.Prelude.{ℕ, ◌≡◌, ◌≢◌, Option, none, some, List, [], ◌∷◌, ◌++◌}

pub record DashMap (V : Type 0) : Type 1 where
  pub Map : Type 0
  pub new : Map
  pub get : ℕ → Map → Option V
  pub insert : ℕ → V → Map → Map
  -- The value that stood under the key, and the map without it.
  pub remove : ℕ → Map → Option V × Map
  pub clear : Map → Map
  pub get-new : (k : ℕ) → get k new ≡ none
  pub get-insert : (k : ℕ) (v : V) (m : Map) → get k (insert k v m) ≡ some v
  pub get-insert_other : (k j : ℕ) (v : V) (m : Map) → j ≢ k → get j (insert k v m) ≡ get j m
  pub remove-get : (k : ℕ) (m : Map) → (remove k m).0 ≡ get k m
  pub get-remove : (k : ℕ) (m : Map) → get k (remove k m).1 ≡ none
  pub get-remove_other : (k j : ℕ) (m : Map) → j ≢ k → get j (remove k m).1 ≡ get j m
  pub get-clear : (k : ℕ) (m : Map) → get k (clear m) ≡ none

-- `try_recv().ok()`: the oldest value, and the channel without it.
pub record Channel (A : Type 0) : Type 1 where
  pub Queue : Type 0
  pub new : ℕ → Queue
  -- The values that were sent and not received, the oldest one first.
  pub queued : Queue → List A
  pub send : A → Queue → Queue
  pub try_recv : Queue → Option A × Queue
  pub queued-new : (capacity : ℕ) → queued (new capacity) ≡ []
  pub queued-send : (a : A) (q : Queue) → queued (send a q) ≡ queued q ++ (a ∷ [])
  pub try_recv_empty :
      (q : Queue) → queued q ≡ [] → ((try_recv q).0 ≡ none) × (queued (try_recv q).1 ≡ [])
  pub try_recv_oldest :
      (q : Queue) (a : A) (rest : List A)
      → queued q ≡ a ∷ rest
      → ((try_recv q).0 ≡ some a) × (queued (try_recv q).1 ≡ rest)
