-- ===== src/Tests/Producer.antt =====
-- The theorems on producers, at concrete inputs. A callback is a number.
use rabbitmq_stream_rust_cli.Prelude.{
  ℕ, ◌<◌, ◌≡◌, refl, true, false, some, none, List, [], ◌∷◌, ◌++◌, length, take, drop, ◌==◌, arith,
}
use rabbitmq_stream_rust_cli.ResponseCode
use rabbitmq_stream_rust_cli.ResponseCode.{internal_error}
use rabbitmq_stream_rust_cli.Producer.{
  ProducerMessageWaiter, ProducerInternal, handle_confirms, internal_send, internal_batch_send,
  close, closed, already_closed, deleted,
}
use rabbitmq_stream_rust_cli.Producer.Accumulator.{MessageAccumulator, add, get}
use rabbitmq_stream_rust_cli.Producer.Accumulator.Order.{
  IsCounted, queued, get-queued, add-queued, adding, getting, added, Call, run, run_in_order,
}
use rabbitmq_stream_rust_cli.Producer.Sending.{numbered, Waiting, internal_batch_send-numbered}
use rabbitmq_stream_rust_cli.Producer.Confirming.{
  ids_from, confirmed_from, batch_confirmed, handle_confirms_twice,
}
use rabbitmq_stream_rust_cli.Producer.Closing.{close_ends_sending}
use rabbitmq_stream_rust_cli.Tests.Instances.{Byte, no_ids, function_map, list_channel}

abbrev three : MessageAccumulator ℕ
three = record { channel = 7 ∷ 8 ∷ 9 ∷ []; capacity = 4; message_count = 3 }

three-IsCounted : IsCounted three
three-IsCounted = record { count = refl }

get-queued_example :
    ((get 2 three).1 ≡ take 2 (queued three))
    × (queued (get 2 three).0 ≡ drop 2 (queued three))
    × IsCounted (get 2 three).0
get-queued_example = get-queued 2 three three-IsCounted (omega arith)

add-queued_example :
    (queued (add 10 three).0 ≡ queued three ++ (10 ∷ []))
    × IsCounted (add 10 three).0
    × ((add 10 three).1 ≡ (length (queued (add 10 three).0) == 4))
add-queued_example = add-queued 10 three three-IsCounted (omega arith)

abbrev calls : List (Call ℕ)
calls = adding 10 ∷ getting 2 ∷ adding 11 ∷ getting 9 ∷ []

run_in_order_example :
    (run calls three).1 ++ queued (run calls three).0 ≡ queued three ++ added calls
run_in_order_example = run_in_order calls three

abbrev Waiter : Type 0
Waiter = ProducerMessageWaiter ℕ Byte

abbrev producer : ProducerInternal ℕ Byte
producer = record {
  stream = 115 ∷ [];
  batch_size = 100;
  publish_sequence = 20;
  waiting_confirmations = function_map.new;
  closed = false;
  accumulator = record { channel = []; capacity = 100; message_count = 0 };
  filter_value_extractor = some (λ m. m ∷ []);
}

abbrev two_messages : List Byte
two_messages = 65 ∷ 66 ∷ []

internal_batch_send-numbered_example :
    ((internal_batch_send 1 two_messages none producer).1
      ≡ record { published = some (numbered (some (λ m. m ∷ [])) 20 two_messages); result = none })
    × ((internal_batch_send 1 two_messages none producer).0.publish_sequence ≡ 22)
    × Waiting {Callback = ℕ} 1 20 two_messages
        (internal_batch_send 1 two_messages none producer).0.waiting_confirmations
    × ((id : ℕ)
        → id < 20
        → function_map.get id
            (internal_batch_send 1 two_messages none producer).0.waiting_confirmations
          ≡ none)
internal_batch_send-numbered_example =
    internal_batch_send-numbered 1 two_messages none producer refl (refl, (refl, tt)) (omega arith)

batch_confirmed_example :
    ((handle_confirms {Callback = ℕ} {Message = Byte}
        (ids_from 20 two_messages)
        (internal_batch_send 1 two_messages none producer).0.waiting_confirmations).called
      ≡ confirmed_from 1 20 two_messages)
    × ((handle_confirms {Callback = ℕ} {Message = Byte}
          (ids_from 20 two_messages)
          (internal_batch_send 1 two_messages none producer).0.waiting_confirmations).panicked
        ≡ false)
batch_confirmed_example =
    batch_confirmed 1 two_messages none producer refl (refl, (refl, tt)) (omega arith)

abbrev waiter : Waiter
waiter = record { cb = 1; msg = 65 }

handle_confirms_twice_example :
    ((handle_confirms {Callback = ℕ} {Message = Byte}
        (5 ∷ 5 ∷ 6 ∷ [])
        (function_map.insert 5 waiter function_map.new)).called
      ≡ (1, record { publishing_id = 5; confirmed = true; status = ResponseCode.ok; message = 65 })
        ∷ [])
    × ((handle_confirms {Callback = ℕ} {Message = Byte}
          (5 ∷ 5 ∷ 6 ∷ [])
          (function_map.insert 5 waiter function_map.new)).panicked
        ≡ true)
handle_confirms_twice_example =
    handle_confirms_twice 5 (6 ∷ []) (function_map.insert 5 waiter function_map.new) waiter refl

abbrev shut : ProducerInternal ℕ Byte
shut = (close (deleted internal_error) none producer).0

close_ends_sending_example :
    (internal_send 1 65 none shut ≡ (shut, record { published = none; result = some closed }))
    × (internal_batch_send 1 two_messages none shut
        ≡ (shut, record { published = none; result = some closed }))
    × (close (deleted ResponseCode.ok) none shut ≡ (shut, some already_closed))
close_ends_sending_example =
    close_ends_sending (deleted internal_error) (deleted ResponseCode.ok) none none none 1 65
      two_messages producer
