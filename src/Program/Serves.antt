-- ===== src/Program/Serves.antt =====
-- From the configuration file to the packet that a client is sent.
use sysmonitor.Monitor.{Monitor}
use sysmonitor.Server.{Server}
use sysmonitor.Program.{Program}
