-- ===== src/Builtins/Constants.antt =====
-- The tables of constants that the `Init` functions fill: `FS`, `Net` and `Signal`. The numbers behind
-- the names are the system's.
use no_js.Base.{Option, none, some, List, [], ◌∷◌, String, Bool, true, false, if◌then◌else◌}
use no_js.Base.Int.{ℤ}
use text.Mathlib.Text.{◌==◌}
use no_js.Builtins.{property_of}

-- `MODE_LIST` of core/fs.cc.
abbrev pub mode_names : List String
mode_names =
    "S_ISUID" ∷ "S_ISGID" ∷ "S_ISVTX" ∷ "S_IRUSR" ∷ "S_IWUSR" ∷ "S_IXUSR" ∷ "S_IRGRP" ∷ "S_IWGRP"
    ∷ "S_IXGRP" ∷ "S_IROTH" ∷ "S_IWOTH" ∷ "S_IXOTH" ∷ []

-- `FLAG_LIST` of core/fs.cc.
abbrev pub flag_names : List String
flag_names =
    "O_ACCMODE" ∷ "O_RDONLY" ∷ "O_WRONLY" ∷ "O_RDWR" ∷ "O_APPEND" ∷ "O_ASYNC" ∷ "O_CLOEXEC"
    ∷ "O_CREAT" ∷ "O_DIRECT" ∷ "O_DIRECTORY" ∷ "O_DSYNC" ∷ "O_EXCL" ∷ "O_LARGEFILE" ∷ "O_NOATIME"
    ∷ "O_NOCTTY" ∷ "O_NOFOLLOW" ∷ "O_NONBLOCK" ∷ "O_NDELAY" ∷ "O_PATH" ∷ "O_SYNC" ∷ "O_TMPFILE"
    ∷ "O_TRUNC" ∷ []

-- `MODE_LIST` of core/net.cc.
abbrev pub socket_option_names : List String
socket_option_names =
    "SO_DEBUG" ∷ "SO_REUSEADDR" ∷ "SO_TYPE" ∷ "SO_ERROR" ∷ "SO_DONTROUTE" ∷ "SO_BROADCAST"
    ∷ "SO_SNDBUF" ∷ "SO_RCVBUF" ∷ "SO_SNDBUFFORCE" ∷ "SO_RCVBUFFORCE" ∷ "SO_KEEPALIVE"
    ∷ "SO_OOBINLINE" ∷ "SO_NO_CHECK" ∷ "SO_PRIORITY" ∷ "SO_LINGER" ∷ "SO_BSDCOMPAT" ∷ "SO_REUSEPORT"
    ∷ []

-- `SIG_LIST` of core/signal.cc.
abbrev pub signal_names : List String
signal_names =
    "SIGHUP" ∷ "SIGINT" ∷ "SIGQUIT" ∷ "SIGILL" ∷ "SIGTRAP" ∷ "SIGABRT" ∷ "SIGBUS" ∷ "SIGFPE"
    ∷ "SIGKILL" ∷ "SIGUSR1" ∷ "SIGSEGV" ∷ "SIGUSR2" ∷ "SIGPIPE" ∷ "SIGALRM" ∷ "SIGTERM"
    ∷ "SIGSTKFLT" ∷ "SIGCHLD" ∷ "SIGCONT" ∷ "SIGSTOP" ∷ "SIGTSTP" ∷ "SIGTTIN" ∷ "SIGTTOU" ∷ "SIGURG"
    ∷ "SIGXCPU" ∷ "SIGXFSZ" ∷ "SIGVTALRM" ∷ "SIGPROF" ∷ "SIGWINCH" ∷ "SIGIO" ∷ "SIGPWR" ∷ "SIGSYS"
    ∷ []

abbrev pub Groups : Type 0
Groups = List (String × List String)

-- The object `constant` of each module that has one, by its groups.
abbrev pub fs_constants : Groups
fs_constants = ("MODE", mode_names) ∷ ("FLAG", flag_names) ∷ []

abbrev pub net_constants : Groups
net_constants =
    ("domain", "AF_UNIX" ∷ "AF_INET" ∷ "AF_INET6" ∷ [])
    ∷ ("type", "SOCK_STREAM" ∷ "SOCK_DGRAM" ∷ "SOCK_RAW" ∷ [])
    ∷ ("level", "SOL_SOCKET" ∷ [])
    ∷ ("socketOption", socket_option_names)
    ∷ []

abbrev pub signal_constants : Groups
signal_constants = ("SIG", signal_names) ∷ []

abbrev pub constants : List (String × Groups)
constants = ("fs", fs_constants) ∷ ("net", net_constants) ∷ ("signal", signal_constants) ∷ []

unfoldable pub listed : String → List String → Bool
listed name [] = false
listed name (n ∷ names) = if n == name then true else listed name names

unfoldable pub constant_in : (String → ℤ) → String → Option (List String) → Option ℤ
unfolding listed
constant_in value name none = none
constant_in value name (some names) = if listed name names then some (value name) else none

unfoldable pub group_of : String → Option Groups → Option (List String)
unfolding property_of
group_of group none = none
group_of group (some groups) = property_of group groups

-- `No.buildin[module].constant[group][name]`, with the system's value of each name.
unfoldable pub constant : (String → ℤ) → String → String → String → Option ℤ
unfolding property_of constant_in group_of
constant value module_name group name =
    constant_in value name (group_of group (property_of module_name constants))
