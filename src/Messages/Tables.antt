-- ===== src/Messages/Tables.antt =====
-- The tables of texts of z_string.c.
use Prim.Native.String.{String}
use lib_system_call.Base.{List, [], ◌∷◌}

abbrev pub z_sys_siglist : List String
z_sys_siglist =
    "Signal 0" ∷ "Hangup" ∷ "Interrupt" ∷ "Quit" ∷ "Illegal instruction" ∷ "Trace/BPT trap"
    ∷ "Abort trap" ∷ "EMT trap" ∷ "Floating point exception" ∷ "Killed" ∷ "Bus error"
    ∷ "Segmentation fault" ∷ "Bad system call" ∷ "Broken pipe" ∷ "Alarm clock" ∷ "Terminated"
    ∷ "Urgent I/O condition" ∷ "Suspended (signal)" ∷ "Suspended" ∷ "Continued" ∷ "Child exited"
    ∷ "Stopped (tty input)" ∷ "Stopped (tty output)" ∷ "I/O possible" ∷ "Cputime limit exceeded"
    ∷ "Filesize limit exceeded" ∷ "Virtual timer expired" ∷ "Profiling timer expired"
    ∷ "Window size changes" ∷ "Information request" ∷ "User defined signal 1"
    ∷ "User defined signal 2" ∷ []

abbrev pub z_sys_errlist : List String
z_sys_errlist =
    "Undefined error: 0" ∷ "Operation not permitted" ∷ "No such file or directory"
    ∷ "No such process" ∷ "Interrupted system call" ∷ "Input/output error" ∷ "Device not configured"
    ∷ "Argument list too long" ∷ "Exec format error" ∷ "Bad file descriptor" ∷ "No child processes"
    ∷ "Resource deadlock avoided" ∷ "Cannot allocate memory" ∷ "Permission denied" ∷ "Bad address"
    ∷ "Block device required" ∷ "Resource busy" ∷ "File exists" ∷ "Cross-device link"
    ∷ "Operation not supported by device" ∷ "Not a directory" ∷ "Is a directory"
    ∷ "Invalid argument" ∷ "Too many open files in system" ∷ "Too many open files"
    ∷ "Inappropriate ioctl for device" ∷ "Text file busy" ∷ "File too large"
    ∷ "No space left on device" ∷ "Illegal seek" ∷ "Read-only file system" ∷ "Too many links"
    ∷ "Broken pipe" ∷ "Numerical argument out of domain" ∷ "Result too large"
    ∷ "Resource temporarily unavailable" ∷ "Operation now in progress"
    ∷ "Operation already in progress" ∷ "Socket operation on non-socket"
    ∷ "Destination address required" ∷ "Message too long" ∷ "Protocol wrong type for socket"
    ∷ "Protocol not available" ∷ "Protocol not supported" ∷ "Socket type not supported"
    ∷ "Operation not supported" ∷ "Protocol family not supported"
    ∷ "Address family not supported by protocol family" ∷ "Address already in use"
    ∷ "Can't assign requested address" ∷ "Network is down" ∷ "Network is unreachable"
    ∷ "Network dropped connection on reset" ∷ "Software caused connection abort"
    ∷ "Connection reset by peer" ∷ "No buffer space available" ∷ "Socket is already connected"
    ∷ "Socket is not connected" ∷ "Can't send after socket shutdown"
    ∷ "Too many references: can't splice" ∷ "Operation timed out" ∷ "Connection refused"
    ∷ "Too many levels of symbolic links" ∷ "File name too long" ∷ "Host is down"
    ∷ "No route to host" ∷ "Directory not empty" ∷ "Too many processes" ∷ "Too many users"
    ∷ "Disc quota exceeded" ∷ "Stale NFS file handle" ∷ "Too many levels of remote in path"
    ∷ "RPC struct is bad" ∷ "RPC version wrong" ∷ "RPC prog. not avail" ∷ "Program version wrong"
    ∷ "Bad procedure for program" ∷ "No locks available" ∷ "Function not implemented"
    ∷ "Inappropriate file type or format" ∷ "Authentication error" ∷ "Need authenticator"
    ∷ "Device power is off" ∷ "Device error" ∷ "Value too large to be stored in data type"
    ∷ "Bad executable (or shared library)" ∷ "Bad CPU type in executable"
    ∷ "Shared library version mismatch" ∷ "Malformed Mach-o file" ∷ "Operation canceled"
    ∷ "Identifier removed" ∷ "No message of desired type" ∷ "Illegal byte sequence"
    ∷ "Attribute not found" ∷ "Bad message" ∷ "EMULTIHOP (Reserved)"
    ∷ "No message available on STREAM" ∷ "ENOLINK (Reserved)" ∷ "No STREAM resources"
    ∷ "Not a STREAM" ∷ "Protocol error" ∷ "STREAM ioctl timeout"
    ∷ "Operation not supported on socket" ∷ "Policy not found" ∷ "State not recoverable"
    ∷ "Previous owner died" ∷ "Interface output queue is full" ∷ []
