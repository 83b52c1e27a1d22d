-- ===== src/Rtsp/Response/Streaming.antt =====
-- readRTSPResponse on a camera that sends frames and no answer. Its deadline is set anew before every read.
