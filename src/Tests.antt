-- ===== src/Tests.antt =====
-- Concrete runs, and the theorems at concrete inputs.
mod Fixtures
mod Agent
mod Protocol
mod Source
mod Stream
mod Codecs
mod Rtsp
mod Camera
mod Program
