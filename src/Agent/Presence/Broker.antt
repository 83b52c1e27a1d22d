-- ===== src/Agent/Presence/Broker.antt =====
-- What the broker retains, over connections that come and go.
use o_camera_agent.Common.{◌≡◌, Bool, true, false, if◌then◌else◌, List, [], ◌∷◌, Option, some}
use o_camera_agent.Common.Int.{ℤ}
use o_camera_agent.Config.{Config}
use o_camera_agent.Json.{Value}
use o_camera_agent.Protocol.Clock.{Time}
use o_camera_agent.Protocol.Encode.{state_value}
use o_camera_agent.Agent.World.{World}
use o_camera_agent.Agent.Events.{Event, step}
use o_camera_agent.Agent.Presence.{published_last}
use o_camera_agent.Agent.Presence.Described.{present_state, absent_state}

-- A broker that has retained `kept`, between two worlds of the agent. While the agent is connected, what
-- it publishes arrives, and it publishes its state on each new connection. When the connection is lost,
-- the broker publishes the Last Will; then nothing arrives.
abbrev pub broker_step : Value → Option Value → World → World → Option Value
broker_step will kept w w' =
    if w'.mqtt.connected then published_last w' else if w.mqtt.connected then some will else kept

abbrev pub broker : Value → Option Value → World → List (Time × Event) → Option Value
broker will kept w [] = kept
broker will kept w (e ∷ es) = broker will (broker_step will kept w (step w e)) (step w e) es

-- Connected, the broker has the state published last; otherwise it has the Last Will.
abbrev Informed : Value → Option Value → World → Type 0
Informed will kept w = kept ≡ (if w.mqtt.connected then published_last w else some will)

-- What the broker should say, if the agent is connected or not.
abbrev pub Tells : Bool → World → World → Option Value → Type 0
Tells true first w kept = (ts : ℤ) × (kept ≡ some (state_value (present_state ts w)))
Tells false first w kept = (ts : ℤ) × (kept ≡ some (state_value (absent_state ts first)))
