-- ===== src/Main/Ends.antt =====
-- How the program ends, and what it publishes last.
use o_camera_agent.Config.{Config}
use o_camera_agent.Agent.World.{World}
