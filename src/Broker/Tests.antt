-- ===== src/Broker/Tests.antt =====
-- A run of the broker.
use cronbat.Prelude.{[]}
use cronbat.Broker.{Event, Broker, new_broker, publish, subscribe, receive}
use cronbat.Broker.Laws.{AllInOrder, Reached, Reached-AllInOrder}

abbrev changed : Event
changed = record {
  id = 0;
  kind = [];
  job_name = [];
  run_id = [];
  action = [];
  status = [];
  trigger = [];
  at = 0;
}

abbrev after_calls : Broker
after_calls = receive 1 (publish 7 changed (publish 6 changed (subscribe new_broker).1))

reached : Reached after_calls
reached = Reached.received 1 _ (
    Reached.published 7 changed _
      (Reached.published 6 changed _ (Reached.subscribed new_broker Reached.created)))

Reached-AllInOrder_example : AllInOrder after_calls.next_id after_calls.subs
Reached-AllInOrder_example = Reached-AllInOrder after_calls reached
