-- ===== src/Mysql.antt =====
-- SysMonitor/simple_mysql.h and simple_mysql.cpp: the wrapper of the MySQL C API.
pub mod Api
pub mod Record
pub mod Connection
