-- ===== src/Calls/Numbers.antt =====
-- The numbers of the Unix requests that the wrappers make: z_syscall.h.
use lib_system_call.Base.{ℕ}

abbrev pub sys_exit : ℕ
sys_exit = 1

abbrev pub sys_read : ℕ
sys_read = 3

abbrev pub sys_write : ℕ
sys_write = 4

abbrev pub sys_open : ℕ
sys_open = 5

abbrev pub sys_close : ℕ
sys_close = 6

abbrev pub sys_wait4 : ℕ
sys_wait4 = 7

abbrev pub sys_unlink : ℕ
sys_unlink = 10

abbrev pub sys_getpid : ℕ
sys_getpid = 20

abbrev pub sys_getuid : ℕ
sys_getuid = 24

abbrev pub sys_ptrace : ℕ
sys_ptrace = 26

abbrev pub sys_recvmsg : ℕ
sys_recvmsg = 27

abbrev pub sys_sendmsg : ℕ
sys_sendmsg = 28

abbrev pub sys_recvfrom : ℕ
sys_recvfrom = 29

abbrev pub sys_accept : ℕ
sys_accept = 30

abbrev pub sys_getpeername : ℕ
sys_getpeername = 31

abbrev pub sys_getsockname : ℕ
sys_getsockname = 32

abbrev pub sys_access : ℕ
sys_access = 33

abbrev pub sys_kill : ℕ
sys_kill = 37

abbrev pub sys_getppid : ℕ
sys_getppid = 39

abbrev pub sys_dup : ℕ
sys_dup = 41

abbrev pub sys_pipe : ℕ
sys_pipe = 42

abbrev pub sys_sigaction : ℕ
sys_sigaction = 46

abbrev pub sys_sigprocmask : ℕ
sys_sigprocmask = 48

abbrev pub sys_getlogin : ℕ
sys_getlogin = 49

abbrev pub sys_setlogin : ℕ
sys_setlogin = 50

abbrev pub sys_sigaltstack : ℕ
sys_sigaltstack = 53

abbrev pub sys_ioctl : ℕ
sys_ioctl = 54

abbrev pub sys_execve : ℕ
sys_execve = 59

abbrev pub sys_munmap : ℕ
sys_munmap = 73

abbrev pub sys_mprotect : ℕ
sys_mprotect = 74

abbrev pub sys_setitimer : ℕ
sys_setitimer = 83

abbrev pub sys_getitimer : ℕ
sys_getitimer = 86

abbrev pub sys_dup2 : ℕ
sys_dup2 = 90

abbrev pub sys_fcntl : ℕ
sys_fcntl = 92

abbrev pub sys_socket : ℕ
sys_socket = 97

abbrev pub sys_connect : ℕ
sys_connect = 98

abbrev pub sys_bind : ℕ
sys_bind = 104

abbrev pub sys_setsockopt : ℕ
sys_setsockopt = 105

abbrev pub sys_listen : ℕ
sys_listen = 106

abbrev pub sys_gettimeofday : ℕ
sys_gettimeofday = 116

abbrev pub sys_getsockopt : ℕ
sys_getsockopt = 118

abbrev pub sys_mkfifo : ℕ
sys_mkfifo = 132

abbrev pub sys_sendto : ℕ
sys_sendto = 133

abbrev pub sys_shutdown : ℕ
sys_shutdown = 134

abbrev pub sys_socketpair : ℕ
sys_socketpair = 135

abbrev pub sys_sigreturn : ℕ
sys_sigreturn = 184

abbrev pub sys_getrlimit : ℕ
sys_getrlimit = 194

abbrev pub sys_setrlimit : ℕ
sys_setrlimit = 195

abbrev pub sys_mmap : ℕ
sys_mmap = 197

abbrev pub sys_lseek : ℕ
sys_lseek = 199

abbrev pub sys_sysctl : ℕ
sys_sysctl = 202

abbrev pub sys_shmat : ℕ
sys_shmat = 262

abbrev pub sys_shmctl : ℕ
sys_shmctl = 263

abbrev pub sys_shmdt : ℕ
sys_shmdt = 264

abbrev pub sys_shmget : ℕ
sys_shmget = 265

abbrev pub sys_sem_open : ℕ
sys_sem_open = 268

abbrev pub sys_sem_close : ℕ
sys_sem_close = 269

abbrev pub sys_sem_unlink : ℕ
sys_sem_unlink = 270

abbrev pub sys_sem_wait : ℕ
sys_sem_wait = 271

abbrev pub sys_sem_trywait : ℕ
sys_sem_trywait = 272

abbrev pub sys_sem_post : ℕ
sys_sem_post = 273

abbrev pub sys_sysctlbyname : ℕ
sys_sysctlbyname = 274

abbrev pub sys_disable_threadsignal : ℕ
sys_disable_threadsignal = 331

abbrev pub sys_pthread_markcancel : ℕ
sys_pthread_markcancel = 332

abbrev pub sys_pthread_canceled : ℕ
sys_pthread_canceled = 333

abbrev pub sys_fstat64 : ℕ
sys_fstat64 = 339

abbrev pub sys_lstat64 : ℕ
sys_lstat64 = 340

abbrev pub sys_getdirentries64 : ℕ
sys_getdirentries64 = 344

abbrev pub sys_statfs64 : ℕ
sys_statfs64 = 345

abbrev pub sys_fstatfs64 : ℕ
sys_fstatfs64 = 346

abbrev pub sys_bsdthread_create : ℕ
sys_bsdthread_create = 360

abbrev pub sys_bsdthread_terminate : ℕ
sys_bsdthread_terminate = 361

abbrev pub sys_bsdthread_register : ℕ
sys_bsdthread_register = 366

abbrev pub sys_thread_selfid : ℕ
sys_thread_selfid = 372

abbrev pub sys_select_nocancel : ℕ
sys_select_nocancel = 407

abbrev pub sys_openat : ℕ
sys_openat = 463

abbrev pub sys_ulock_wait : ℕ
sys_ulock_wait = 515

abbrev pub sys_ulock_wake : ℕ
sys_ulock_wake = 516

abbrev pub sys_ulock_wait2 : ℕ
sys_ulock_wait2 = 544
