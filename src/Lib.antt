-- ===== src/Lib.antt =====
-- oCameraAgent: an agent that makes one RTSP camera available to viewers over WebRTC, with MQTT for the
-- signalling.
--
-- The program's parts. The agent (agent.go) is idle or has one session. Messages of viewers reach it
-- through the MQTT client (mqtt.go), which checks topic, version and time stamp (protocol.go). An offer
-- opens a session with a WebRTC proxy of its own (webrtc.go), if the source monitor (source.go) finds
-- the camera reachable with a codec that can be carried. Local ICE candidates go to the viewer in
-- batches. A session ends by a message, a timer, the peer connection or a lost stream. The agent
-- publishes its state, retained, whenever it changes.
--
-- The files:
--   Common           tests, lists, texts as bytes, integers with 64-bit wrap-around; Common.Split,
--                    Common.Trim and Common.Decimal the functions of strings and strconv
--   Json             trees of JSON values and the decoding of struct fields (encoding/json)
--   Protocol         protocol.go: constants and message types; Protocol.Ident the patterns,
--                    Protocol.Clock tsAcceptable, Protocol.Encode and Protocol.Decode the JSON tags
--   Config           config.go: loadConfig, Validate
--   Source           source.go: SourceMonitor; Source.Codecs sameInfo, firstSupported, filterSupported
--   Webrtc.Proxy     webrtc.go: WebRTCProxy, HandleOffer, createAnswer, Close
--   Webrtc.Connection webrtc.go: handleConnectionState, end
--   Webrtc.Relay     webrtc.go: sendRTPPacket, consumeRTPPackets
--   Webrtc.Stream    webrtc.go: StartRTSPStream
--   Webrtc.Network   webrtc.go: redactURL, isPrivateOrLinkLocalIP, isInLocalSubnet, the selected pair
--   Rtsp.Frames      rtsp_client.go: handleTCPPackets, RtspRtpLoop without its keepalive
--   Rtsp.Response    rtsp_client.go: readRTSPResponse
--   Rtsp.Headers     rtsp_client.go: ParseDirective, ParseSession, parseRTSPStatusCode
--   Rtsp.Codecs      rtsp_client.go: ParseCodecs
--   Rtsp.Media       rtsp_client.go: ParseMedia
--   Rtsp.Request     rtsp_client.go: SendRequest, Close
--   Rtsp.Handshake   rtsp_client.go: ParseUrl, describe, ProbeSource, Client
--   Mqtt             mqtt.go: MqttClient, handleMessage
--   Mqtt.Connection  mqtt.go: NewMqttClient, buildTLSConfig, onConnect, selfTestACL
--   Agent.Session    agent.go: Session, startICE, queueICE, flushICE, stopICE
--   Agent.World      agent.go and mqtt.go: the state of the agent, state, Send, PublishState
--   Agent.Offer      agent.go: handleOffer
--   Agent.Events     agent.go: the other handlers, endSession, Shutdown, and runs of events
--   Agent.Start      agent.go: NewAgent, Run, and the options of its MQTT connection (mqtt.go)
--   Logger           logger.go: logMessage, Info, Debug, Error, Warn, Fatal
--   Main             main.go
--   Tests            concrete runs
-- The other files hold proofs; each says of what.
--
-- How the model stands to the code. A Go string is a list of bytes. A pointer to a struct that is only
-- read is an Option; a timer or a connection is kept as whether its pointer is not nil. The sessions
-- that ever were stand in a list, and the pointer of the agent to the active one is an index into it,
-- so that a late callback of an old session finds its own session. The world also keeps the list of
-- calls that leave the program: what is published, which remote candidates are added, what is closed.
-- A callback or a handler runs to its end as one step, and steps follow one another in any order; the
-- runs of the model are lists of such steps with the time of each. A client of a camera is a record
-- that the calls hand on; it holds the list of what the camera will do, and a log of what was written.
-- readRTSPResponse recurs on fuel, one more than the number of bytes that arrive, which is enough since
-- each round reads at least one. These are the bytes that arrive before a read fails: the deadline is set
-- anew in every round, so that for a camera that never falls silent there is no such list. The attempts of
-- Webrtc.Stream recur on the number of attempts left, five at first as in the code; the digits of a
-- number recur on that number, and every other definition on a list.
--
-- What other packages do is an argument: the result of a probe and of the YAML parser, the answers of
-- the WebRTC package during an offer, md5.Sum, the result of url.Parse and of the dial, the length above
-- which make panics, the network interfaces, the answers of the broker, and every message, timer and
-- state change as an event. time.Time is nanoseconds since 1970 with an offset of the zone; time.Sub
-- saturates, as its documentation says.
-- The text of a JSON document is outside the model, which begins with its tree.
--
-- Texts are bytes in UTF-8: strings.TrimSpace and strings.Fields know every space of unicode.IsSpace.
-- strings.ToLower folds the letters of ASCII only, and fmt.Sscanf skips the spaces of ASCII only.
--
-- What the broker retains for the topic of the state is described in Agent.Presence.Broker, which is not
-- part of the program: the last retained message, or the Last Will once the connection is lost.
--
-- Not modelled: the keepalive of RtspRtpLoop, a timer of 50 seconds; the counts of packets and the pool
-- of buffers, neither of which changes what a viewer receives; the flags of main.go and InitLogger; where
-- the program logs.
pub mod Common
pub mod Json
pub mod Protocol
pub mod Source
pub mod Config
pub mod Webrtc
pub mod Mqtt
pub mod Agent
pub mod Rtsp
pub mod Logger
pub mod Main
pub mod Tests
