-- ===== src/Clashapi/Logs.antt =====
-- clashapi/logs.go, and serveLogsWS of clashapi/handlers.go: the messages that a dashboard gets.
pub mod Laws
use ssh_worker.Prelude.{
  ℕ, zero, suc, ltb, ◌==◌, if◌then◌else◌, Bool, true, false, Option, none, some, List, [], ◌∷◌,
  ◌++◌, map, Text, length,
}

pub record LogMessage : Type 0 where
  pub kind : Text
  pub payload : Text

-- A channel with its number and the messages in it, the oldest first.
pub record Channel : Type 0 where
  pub number : ℕ
  pub messages : List LogMessage

abbrev pub LogBroadcaster : Type 0
LogBroadcaster = List Channel

abbrev pub room : ℕ
room = 64

-- A message that finds the channel full is dropped.
unfoldable pub offer : LogMessage → Channel → Channel
offer m ch =
    if ltb (length ch.messages) room then record ch { messages = ch.messages ++ m ∷ [] } else ch

unfoldable pub publish : Text → Text → LogBroadcaster → LogBroadcaster
unfolding offer
publish level msg b = map (offer (record { kind = level; payload = msg })) b

unfoldable pub subscribe : ℕ → LogBroadcaster → LogBroadcaster
subscribe number b = record { number = number; messages = [] } ∷ b

unfoldable pub unsubscribe : ℕ → LogBroadcaster → LogBroadcaster
unsubscribe number [] = []
unsubscribe number (ch ∷ chs) =
    let rest = unsubscribe number chs in if ch.number == number then rest else ch ∷ rest

-- A dashboard: its channel, and what its loop has taken out of it.
pub record Dashboard : Type 0 where
  pub channel : Channel
  pub taken : List LogMessage

-- What happens to it: a call of Publish, or a turn of the loop.
pub data Event : Type 0 where
  published : LogMessage → Event
  receives : Event

abbrev pub take_first : Channel → List LogMessage → List LogMessage → Dashboard
take_first ch [] taken = record { channel = ch; taken = taken }
take_first ch (m ∷ ms) taken = record {
  channel = record ch { messages = ms };
  taken = taken ++ m ∷ [];
}

unfoldable pub step : Event → Dashboard → Dashboard
unfolding offer
step (published m) d = record d { channel = offer m d.channel }
step receives d = take_first d.channel d.channel.messages d.taken

unfoldable pub run : List Event → Dashboard → Dashboard
unfolding step
run [] d = d
run (e ∷ es) d = run es (step e d)
