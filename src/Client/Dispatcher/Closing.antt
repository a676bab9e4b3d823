-- ===== src/Client/Dispatcher/Closing.antt =====
-- What is left when `handle_response` has ended, and the gap in `RequestsMap::insert`.
use rabbitmq_stream_rust_cli.Prelude.{ℕ, ◌≡◌, refl, true, false, none, some, List, [], ◌∷◌}
use rabbitmq_stream_rust_cli.Crates.{DashMap}
use rabbitmq_stream_rust_cli.Client.Dispatcher.{
  DispatcherState, RequestsMap, Received, response, failure, store, insert_during, insert,
  close_map, close_state, response_channel, handle_item, handle_response,
}
use rabbitmq_stream_rust_cli.Client.Dispatcher.Answers.{pending}

module _ (Message : Type 0) {Sender : Type 0} ⦃d : DashMap Sender⦄ where
  close_state_closes :
      (s : DispatcherState Sender)
      → ((close_state Message none s).0.requests.closed ≡ true)
        × ((id : ℕ) → pending id (close_state Message none s).0 ≡ none)
  unfolding close_state close_map
  close_state_closes s = (refl, λ id. d.get-clear id s.requests.requests)

module _ {Message Sender : Type 0} ⦃d : DashMap Sender⦄ where
  ends :
      (stream : List (Received Message)) (s : DispatcherState Sender)
      → ((handle_response stream s).0.requests.closed ≡ true)
        × ((id : ℕ) → pending id (handle_response stream s).0 ≡ none)
  unfolding handle_response
  ends [] s = close_state_closes Message s
  ends (failure e ∷ stream) s = close_state_closes Message s
  ends (response r ∷ stream) s = ends stream (handle_item r s).0

  -- When `handle_response` has ended, whether its stream ended or failed, no request is pending any
  -- more, and a new request is refused.
  pub handle_response_closes :
      (stream : List (Received Message)) (s : DispatcherState Sender) (tx : Sender)
      → ((id : ℕ) → pending id (handle_response stream s).0 ≡ none)
        × ((response_channel tx (handle_response stream s).0).1 ≡ none)
  unfolding response_channel insert insert_during
  handle_response_closes stream s tx = let (closed, empty) = ends stream s in (empty, rw closed)

module _ {Sender : Type 0} ⦃d : DashMap Sender⦄ where
  -- When another task closes the map between the test and the store of an insert, the insert
  -- reports that the request is pending, and its sender is pending in the map, which is closed and
  -- refuses every later insert.
  pub insert_closed_between :
      (id : ℕ) (tx : Sender) (m : RequestsMap Sender)
      → m.closed ≡ false
      → ((insert_during close_map id tx m).1 ≡ true)
        × ((insert_during close_map id tx m).0.closed ≡ true)
        × (d.get id (insert_during close_map id tx m).0.requests ≡ some tx)
        × ((other : ℕ) (late : Sender)
            → insert other late (insert_during close_map id tx m).0
              ≡ ((insert_during close_map id tx m).0, false))
  unfolding insert insert_during store close_map
  insert_closed_between id tx m still =
      rw still (refl, refl, d.get-insert id tx (d.clear m.requests), λ other late. refl)
