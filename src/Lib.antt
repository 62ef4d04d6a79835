-- ===== src/Lib.antt =====
-- SysMonitor samples a machine and its databases and gives the samples to clients as JSON
-- texts.
--
-- The configuration is read from an ini file by the byte loop of SysMonitor/func.cpp
-- (Ini.antt), which SysMonitor/load_config.cpp calls for each key (Config.antt); the file's
-- path beside the program is that of func.cpp (Paths.antt), which the log of SysMonitor/func.h
-- (Log.antt) uses too. Monitor objects, in the table of SysMonitor/monitor_system.cpp
-- (Monitor.antt), fill a JSON value; `CProtocolManage` of SysMonitor/protocol_manage.cpp
-- collects them in a snapshot on each turn of a timer, queues it, and gives it to the client
-- that sends the right word (Protocol.antt). The callbacks of SysMonitor/sys_monitor.cpp read
-- the word from a socket and send the snapshot in a packet (Server.antt). The monitors of
-- databases reach them through the pool of SysMonitor/link_manager.cpp (LinkManager.antt), or
-- through the wrapper of the MySQL client in SysMonitor/simple_mysql.cpp (Mysql/Record.antt,
-- Mysql/Connection.antt), which opens a connection from a connection string that
-- SysMonitor/db_utility.cpp parses (ConnString.antt) with the help of the string routines of
-- SysMonitor/port.cpp (Port.antt). The codes of SysMonitor/error.h are in Rc.antt. The
-- monitors are modelled: SysMonitor/mysql_monitor.cpp queries databases and the state of a
-- cluster (MysqlMonitor.antt), SysMonitor/mssql_monitor.cpp takes the differences of two
-- samples (MssqlMonitor.antt), SysMonitor/linux_monitor_system.cpp reads the texts of /proc
-- (LinuxMonitor.antt), SysMonitor/ndb_monitor.cpp watches log files for alarms, which a
-- client's word resets (Ndb.antt, Ndb/Table.antt), the process monitor of
-- SysMonitor/monitor_system.cpp counts connections (Monitor/Process.antt), its CSysInfo reads
-- the drives and the performance counters (SysInfo.antt), and SysMonitor/web_monitor.cpp looks
-- for the web server (SysInfo/Web.antt). Program.antt puts the configuration, the table and
-- the server together, as main does. Base.antt has the lists, texts and tests that the rest
-- shares.
--
-- Correspondence. A class is a record of its members, and each method is a function of the
-- same name in small letters that takes the record and gives what the method returns with the
-- new record: `get_link` is `CLinkManager::GetLink`, `read` and `write` of Protocol.antt are
-- those of `CProtocolManage`. A C string is the list of its bytes in front of the NUL, a
-- buffer the list of all its bytes, a pointer into one an offset. `Option` is the outcome of
-- code that may read or write outside a buffer, overflow an int, or fail an assertion: `none`
-- is that fault. Other integers are natural numbers with the wrap of their width written out
-- (`to_u32`, `% 2 ^ w`).
--
-- Bounds and fuel. A client's buffer and the packet have 4096 bytes, `cs_buf` has 256 bytes,
-- `szLine` and `tmpstr` 1024, a path 256, a message of the log 102400, the pool 30 links and 5
-- configurations; a scan of a log reads 100 lines of up to 999 bytes. The loop that drains the
-- results of a connection runs on fuel, one more than the results that the library has still
-- to give, since each round takes one. The lines of a command's output are read on fuel, one
-- for each byte, since each line takes one at least. The other loops are recursions on the
-- text, the file or the list that they walk.
--
-- Parameters. The MySQL client library (Mysql/Api.antt), `CADODatabase`
-- (LinkManager/Database.antt) with its record sets (MssqlMonitor.antt) and the JSON library
-- (Protocol/Writer.antt) are records of the functions that the program calls; the laws beside
-- them state what their documentation says. A call of `GetLink` is one step, though the
-- connection is made outside its lock: the link that it works on is marked busy under the
-- lock, and no other call touches a busy link. The outputs of `ndb_mgm` and of netstat, the
-- texts under /proc, the program's path and the time, the text that a message's format stands
-- for, what Windows tells of its drives and counters, the process list, the sizes of the log
-- files and what a new buffer holds are arguments. The event loop is a list of events, each
-- handled to its end; the turn of the timer is one of them, though nothing in the code keeps
-- its thread apart from the others. Protocol/Threads.antt has those runs of the two threads in
-- which no call of the list of snapshots overlaps another, to show what can go wrong.
--
-- The log. Each call of `WriteLog` that the callbacks, main and the NDB monitor make is in the
-- model with its text, and faults where the call does (Log/Fits.antt). Without WIN32 a call
-- whose level is above 0 always does, as does LoadConfig, whose buffer for a path is as short.
-- A theorem about the server that runs on therefore asks for WIN32, and for a log whose name
-- and time stamp fit their buffers. What the log files hold is not kept.
--
-- Not modelled: the sockets, the start and the end of the threads, the crash dump and the
-- error texts that are printed, which are calls of the system; SysMonitor/Oracle_Monitor.cpp,
-- whose class no build uses; and the copies of jsoncpp, libevent, ado2, ocilib and the MySQL
-- headers, which are other projects' libraries.
pub mod Base
pub mod Rc
pub mod Log
pub mod Paths
pub mod Port
pub mod Program
pub mod ConnString
pub mod Mysql
pub mod LinkManager
pub mod LinuxMonitor
pub mod Protocol
pub mod Ini
pub mod Config
pub mod Ndb
pub mod Server
pub mod SysInfo
pub mod MysqlMonitor
pub mod Monitor
pub mod MssqlMonitor
