-- ===== src/Process/Switching/Starting.antt =====
-- What execute of mp3/student-distrib/system_calls.c does to the tables of the kernel, on every path.
use ece_391_fall.Process.Command.{Command}
