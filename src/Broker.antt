-- ===== src/Broker.antt =====
-- internal/realtime/broker.go: events for the subscribers, each with a channel of 32 places. Calls
-- are taken one after the other. A channel is the list of the events that wait in it.
pub mod Laws
mod Tests
use cronbat.Prelude.{
  ℕ, suc, Bool, ◌==◌, Option, none, some, List, [], ◌∷◌, ◌++◌, ltb, if◌then◌else◌, length,
}
use cronbat.Text.{Text}

-- The time 0 is Go's zero time.
pub record Event : Type 0 where
  pub id : ℕ
  pub kind : Text
  pub job_name : Text
  pub run_id : Text
  pub action : Text
  pub status : Text
  pub trigger : Text
  pub at : ℕ

abbrev pub Channels : Type 0
Channels = List (ℕ × List Event)

pub record Broker : Type 0 where
  pub next_id : ℕ
  pub next_ch : ℕ
  pub subs : Channels

abbrev pub new_broker : Broker
new_broker = record { next_id = 0; next_ch = 0; subs = [] }

-- `select { case ch <- evt: default: }`
unfoldable pub offer : Event → List Event → List Event
offer evt ch = if ltb (length ch) 32 then ch ++ (evt ∷ []) else ch

unfoldable pub offer_all : Event → Channels → Channels
unfolding offer
offer_all evt [] = []
offer_all evt ((k, ch) ∷ subs) = (k, offer evt ch) ∷ offer_all evt subs

-- `now` is the clock's reading.
unfoldable pub publish : ℕ → Event → Broker → Broker
unfolding offer_all
publish now evt b =
    let numbered = record evt { id = suc b.next_id; at = if evt.at == 0 then now else evt.at } in
    record b { next_id = suc b.next_id; subs = offer_all numbered b.subs }

-- The new subscriber's key, by which it is cancelled
unfoldable pub subscribe : Broker → ℕ × Broker
subscribe b =
    (suc b.next_ch, record b { next_ch = suc b.next_ch; subs = (suc b.next_ch, []) ∷ b.subs })

unfoldable pub without : ℕ → Channels → Channels
without k [] = []
without k ((j, ch) ∷ subs) = let rest = without k subs in if j == k then rest else (j, ch) ∷ rest

unfoldable pub cancel : ℕ → Broker → Broker
unfolding without
cancel k b = record b { subs = without k b.subs }

-- The receiver takes the first event of its channel.
abbrev pub rest_of : List Event → List Event
rest_of [] = []
rest_of (e ∷ es) = es

unfoldable pub take_from : ℕ → Channels → Channels
take_from k [] = []
take_from k ((j, ch) ∷ subs) =
    let rest = take_from k subs in if j == k then (j, rest_of ch) ∷ rest else (j, ch) ∷ rest

unfoldable pub receive : ℕ → Broker → Broker
unfolding take_from
receive k b = record b { subs = take_from k b.subs }
