-- ===== src/Tests/Agent.antt =====
-- The life of a camera, step by step, and the theorems on the agent at points of it.
use o_camera_agent.Json.{
  is_key, get, string_field, int64_field, bool_field, bool_pointer_field, string_pointer_field,
  uint16_pointer_field, struct_fields,
}
use o_camera_agent.Source.{new_source_monitor, probe_now, mark_down, stop}
use o_camera_agent.Mqtt.{new_mqtt_client, uses_tls, topic_cli, sender, accept, handle_message}
use o_camera_agent.Protocol.Decode.{
  unmarshal_envelope, want_field, unmarshal_offer, unmarshal_candidate, unmarshal_candidates,
  candidates_field, unmarshal_ice, unmarshal_cmd,
}
use o_camera_agent.Protocol.Clock.{clock_synced, saturate, sub_unix, ts_acceptable}
use o_camera_agent.Protocol.Encode.{
  string_omitempty, raw_omitempty, candidate_value, candidate_values, data_value, envelope_value,
  caps_omitempty, info_omitempty, state_value,
}
use o_camera_agent.Protocol.Ident.{is_id_byte, all_id_bytes, sid_pattern, id_pattern}
use o_camera_agent.Webrtc.Proxy.{
  new_web_rtc_proxy, close, negotiate, add_audio_track, add_tracks, create_answer, video_name,
  close_refused, offers_video, handle_offer,
}
use o_camera_agent.Webrtc.Connection.{end, handle_connection_state, open_stream}
use o_camera_agent.Source.Codecs.{
  equal_strings, same_info, is_supported, first_supported, filter_supported,
}
use o_camera_agent.Common.Text.{
  same, has_prefix, index, contains, to_lower, is_space, is_blank, width, drop_space, trim_space,
}
use o_camera_agent.Common.Int.{◌+ℤ◌, ◌-ℤ◌, ◌*ℤ◌, wrap_int64}
use o_camera_agent.Agent.Session.{
  new_session, flush_ice, start_ice, queue_ice, stop_ice, stop_connect_timer, shut, shut_releases,
}
use o_camera_agent.Agent.Offer.{
  envelope, resend, busy_offer, wants_audio, wants_stream, gather, give_back, open_session,
  on_reply, start_session, choose_codecs, check_source, bad_stream, offer_decoded, idle_offer,
  handle_offer_message,
}
use o_camera_agent.Agent.World.{
  emit, current, at_session, at_current, put_session, publish, send, send_error, send_batch, codecs,
  caps, viewer, state, publish_state, update_source,
}
use o_camera_agent.Agent.Events.{
  is_from, end_session, add_candidates, add_decoded, handle_ice, handle_bye, answer_cmd, handle_cmd,
  handle_envelope, on_signal, on_signals, on_proxy, on_ice, end_active, close_mqtt, shut_down,
  report, open_started, fire_ice, receive, happen, step, run,
}
use o_camera_agent.Agent.Start.{seconds, new_agent, first_probe, start}
use o_camera_agent.Common.{
  ℕ, ◌≡◌, ◌≢◌, refl, true, false, not, ◌||◌, ◌&&◌, List, [], ◌∷◌, ◌++◌, Option, none, some, arith,
  take, length, get_elem?, subst, sym, ap, ◌∙◌,
}
use o_camera_agent.Common.Int.{pos}
use o_camera_agent.Common.Text.{codes, same_iff}
use o_camera_agent.Mqtt.{Received}
use o_camera_agent.Protocol.{source_lost, user}
use o_camera_agent.Agent.Session.{Session}
use o_camera_agent.Agent.World.{World, current, points, is_some}
use o_camera_agent.Agent.Batching.{
  IceOp, queues, timer_fires, starts, stops, ice_run, sent, queued, end_queued, any_final,
  is_prompt, batches_conserve, candidates_prompt,
}
use o_camera_agent.Agent.Replies.{is_reply, Replies}
use o_camera_agent.Agent.Replies.Offers.{HoldsReply, handle_offer_message-Replies}
use o_camera_agent.Agent.Presence.{published_last}
use o_camera_agent.Agent.Presence.Described.{absent_state}
use o_camera_agent.Protocol.Clock.{unix}
use o_camera_agent.Agent.Invariant.Run.{one_connection}
use o_camera_agent.Agent.Presence.Shutdown.{shut_down_leaves}
use o_camera_agent.Agent.Isolation.{OnlyAnswers, stranger_isolated, end_session_once}
use o_camera_agent.Tests.Fixtures.{camera, noon, life, h264_camera, sid, outside, candidate}

abbrev world_after : ℕ → World
world_after n = run (start (some h264_camera) (new_agent camera noon)) (take n life)

abbrev blank : Session
blank = new_session sid (codes "anna") (new_web_rtc_proxy [] (codes "h264") [] []) noon

abbrev or_blank : Option Session → Session
or_blank none = blank
or_blank (some s) = s

-- The first session, while it is active.
abbrev anna : Session
anna = or_blank (get_elem? (world_after 3).store 0)

-- The same session after a shutdown.
abbrev closed_anna : Session
closed_anna = or_blank (get_elem? (shut_down (world_after 3)).store 0)

-- The session opens, and ends when its stream is lost, which also makes the camera offline.
pub life_lem :
    (current (world_after 3) ≡ some (0, anna))
    × (get_elem? (world_after 3).store 0 ≡ some anna)
    × (same (codes "bert") anna.viewer ≡ false)
    × ((world_after 3).mqtt.connected ≡ true)
    × (get_elem? (shut_down (world_after 3)).store 0 ≡ some closed_anna)
    × ((world_after 0).sess ≡ none)
    × ((world_after 1).sess ≡ some 0)
    × ((world_after 6).sess ≡ some 0)
    × ((world_after 7).sess ≡ none)
    × ((world_after 6).source.online ≡ true)
    × ((world_after 7).source.online ≡ false)
    × (length (world_after 9).log ≡ 11)
    × HoldsReply anna.answer
unfolding is_key get string_field int64_field bool_field bool_pointer_field string_pointer_field
    uint16_pointer_field struct_fields new_source_monitor probe_now mark_down stop new_mqtt_client
    uses_tls topic_cli sender accept handle_message unmarshal_envelope want_field unmarshal_offer
    unmarshal_candidate unmarshal_candidates candidates_field unmarshal_ice unmarshal_cmd
    clock_synced saturate sub_unix ts_acceptable string_omitempty raw_omitempty candidate_value
    candidate_values data_value envelope_value caps_omitempty info_omitempty state_value is_id_byte
    all_id_bytes sid_pattern id_pattern new_web_rtc_proxy close negotiate add_audio_track add_tracks
    create_answer video_name close_refused offers_video handle_offer end handle_connection_state
    open_stream equal_strings same_info is_supported first_supported filter_supported same
    has_prefix index contains to_lower is_space is_blank width drop_space trim_space ◌+ℤ◌ ◌-ℤ◌ ◌*ℤ◌
    wrap_int64 new_session flush_ice start_ice queue_ice stop_ice stop_connect_timer shut
    shut_releases envelope resend busy_offer wants_audio wants_stream gather give_back open_session
    on_reply start_session choose_codecs check_source bad_stream offer_decoded idle_offer
    handle_offer_message emit current at_session at_current put_session publish send send_error
    send_batch codecs caps viewer state publish_state update_source is_from end_session
    add_candidates add_decoded handle_ice handle_bye answer_cmd handle_cmd handle_envelope on_signal
    on_signals on_proxy on_ice end_active close_mqtt shut_down report open_started fire_ice receive
    happen step run seconds new_agent first_probe start is_reply
life_lem = (refl, refl, refl, refl, refl, refl, refl, refl, refl, refl, refl, refl, refl)

-- An offer of another viewer.
abbrev from_bert : Received
from_bert = record {
  from = codes "bert";
  env = record {
    v = pos 1;
    ts = pos 1_791_892_800;
    sid = codes "session-02";
    type = codes "offer";
    raw = none;
  };
  is_stale = false;
}

bert-ne_anna : from_bert.from ≢ anna.viewer
bert-ne_anna e = ground (arith, same_iff (codes "bert") anna.viewer, life_lem.2, e)

the_session : Option (ℕ × Session) → Session
the_session none = anna
the_session (some x) = x.1

anna_holds : (r : ℕ) (s : Session) → current (world_after 3) ≡ some (r, s) → HoldsReply s.answer
unfolding the_session
anna_holds r s found =
    subst (λ t. HoldsReply t.answer) (ap the_session (sym life_lem.0 ∙ found)) life_lem.12

-- Bert is told that the camera is busy.
handle_offer_message-Replies_example :
    Replies
      (topic_cli (world_after 3).mqtt (codes "bert"))
      1
      (world_after 3)
      (handle_offer_message outside (codes "bert") from_bert.env (world_after 3))
handle_offer_message-Replies_example =
    handle_offer_message-Replies outside (codes "bert") from_bert.env (world_after 3) anna_holds

one_connection_example :
    let w = world_after 3 in
    (anna.proxy.pc ≡ points w.sess 0)
    × ((anna.ice_ready && not anna.ice_stopped) ≡ points w.sess 0)
    × ((points w.sess 0 || not anna.proxy.rtsp_client) ≡ true)
    × ((not (points w.sess 0) || is_some anna.answer) ≡ true)
one_connection_example =
    one_connection camera noon (some h264_camera) (take 3 life) 0 anna life_lem.1

shut_down_leaves_example :
    ((shut_down (world_after 3)).sess ≡ none)
    × (closed_anna.proxy.pc ≡ false)
    × (closed_anna.proxy.rtsp_client ≡ false)
    × (published_last (shut_down (world_after 3))
        ≡ some (state_value (absent_state (unix (world_after 3).now) (world_after 3))))
shut_down_leaves_example =
    shut_down_leaves camera noon (some h264_camera) (take 3 life) 0 closed_anna life_lem.3
      life_lem.4

stranger_isolated_example :
    OnlyAnswers (codes "bert") (world_after 3) (handle_envelope outside from_bert (world_after 3))
stranger_isolated_example =
    stranger_isolated (world_after 3) 0 anna outside from_bert life_lem.0 bert-ne_anna

end_session_once_example :
    end_session 0 anna user false (end_session 0 anna source_lost true (world_after 3))
    ≡ end_session 0 anna source_lost true (world_after 3)
end_session_once_example = end_session_once 0 anna anna source_lost user true false (world_after 3)

abbrev ops : List IceOp
ops =
    queues (some (candidate (codes "a")))
    ∷ starts
    ∷ queues (some (candidate (codes "b")))
    ∷ timer_fires
    ∷ queues none
    ∷ stops
    ∷ queues (some (candidate (codes "c")))
    ∷ []

blank_is_new :
    (blank.ice_stopped ≡ false)
    × (blank.ice_buf ≡ [])
    × (blank.ice_end ≡ false)
    × (blank.ice_ready ≡ false)
unfolding new_session
blank_is_new = (refl, refl, refl, refl)

batches_conserve_example :
    let (t, ds) = ice_run ops blank in
    (sent ds ++ t.ice_buf ≡ queued ops) × ((any_final ds || t.ice_end) ≡ end_queued ops)
batches_conserve_example = batches_conserve ops blank blank_is_new.0 blank_is_new.1 blank_is_new.2

candidates_prompt_example : is_prompt (ice_run ops blank).0 ≡ true
candidates_prompt_example = candidates_prompt ops blank blank_is_new.3
