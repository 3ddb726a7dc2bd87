-- ===== src/Lib.antt =====
-- procfs: parsers of the pseudo file systems of Linux.
--
-- The repository is a Go library. A package opens a file of /proc or /sys, reads it line by line and
-- fills a struct; what goes wrong comes back as an error. The development models some of the
-- parsers and the helpers that they share; what it shows of them is listed at the end.
--
-- Parts and files:
--   Base            names of the libraries, Boolean tests on ℕ, lists and texts, Go's int64
--   Go              what the parsers use of Go and its standard library:
--     Go/Result     a call returns a value or an error, or panics; indices and slices; loops
--     Go/Cells      proofs about composite literals whose fields are cells of a slice
--     Go/Text       strings.Fields, Split, TrimSpace and friends
--     Go/Strconv    strconv.ParseUint, ParseInt, Atoi and FormatUint
--     Go/Scanner    bufio.Scanner over a reader, line by line
--     Go/Lines      lines of words, and of a label and numbers
--     Go/Slices     cells and parts of a slice
--     Go/Yields     what a call says of its value, and loops that simulate one another
--     Go/Hex        encoding/hex
--     Go/Files      files as a function of their path
--     Go/Map        map[string]string as an association list
--     Go/Reply      a value that is returned beside an error
--     Go/Switch     a switch over strings that sets a field in each case, its laws and the loop over it
--   Util            internal/util/parse.go, readfile.go and valueparser.go
--   Nfs             nfs/: records in Nfs/Types (nfs.go), parsers of a line in Nfs/Parse (parse.go), the
--                   files /proc/net/rpc/nfs in Nfs/Client (parse_nfs.go) and /proc/net/rpc/nfsd in
--                   Nfs/Server (parse_nfsd.go)
--   Xfs             xfs/: records in Xfs/Types (xfs.go), parsers of a line in Xfs/Parse and of the file
--                   in Xfs/Stats (parse.go)
--   MountInfo       mountinfo.go
--   Cgroups         proc_cgroup.go and proc_cgroups.go
--   Softnet         net_softnet.go
--   MountStats      mountstats.go: lines and records below it; the proofs start from the words of a file
--                   (MountStats/Blocks)
--   Sockets         net_ip_socket.go, net_tcp.go and net_udp.go
--   CpuInfo         cpuinfo.go: the parsers for x86 and PowerPC, and below them those for ARM in CpuInfo/Arm,
--                   for S390X in CpuInfo/S390x and, in CpuInfo/Numbered, for MIPS, LoongArch and RISC-V,
--                   which index by the number of a processor; CpuInfo/Printed describes files as the
--                   kernel prints them for x86, PowerPC and MIPS
--   MemInfo         meminfo.go
--   Snmp6           proc_snmp6.go
--   Netstat, Snmp   proc_netstat.go and proc_snmp.go: their records and switches; the loop that both
--                   files have is in Paired
--   Tests           runs of the parsers on concrete inputs
-- A parser calls the scanner for the lines, Go/Text for the words of a line, Util/Parse for the numbers
-- and then the function that builds the record of the label. A function has its Go name in snake case;
-- where a Go function is one long loop, the body is a definition of its own (client_line, server_line,
-- stats_line) and a long switch is split by its cases (stats_metric, stats_metric_caches,
-- stats_metric_btrees).
--
-- Modelling:
--   A string is the list of its bytes. White space is Unicode's, as in strings.Fields: texts that are
--   not ASCII are decoded. A uint64 or uint32 is a natural number, and its bound is written out where a
--   conversion wraps around. An int64 is an integer.
--   A function that returns an error gives a Result: ok, err, or panic for an index or a slice out of
--   range, so that "does not panic" is a statement. An error keeps the format string and the errors
--   that it wraps, not the values formatted between.
--   A bufio.Scanner stops at a line of 65536 bytes or more with bufio.ErrTooLong, or at the error of its
--   reader. A reader is its content and how it ends. The socket parsers skip a header without a look at
--   what Scan returned: behind a header that is too long the next Scan gives what the buffer holds. So do
--   the loop over pairs of lines and the second loop for S390X, which call Scan behind its end
--   (scan_again).
--   A Go map is an association list with one entry for a key. The parsers only insert and look up.
--   A struct is a record, its zero value is zero_<name>, and <name>_values lists its numbers in the order
--   of the line.
--   The parsers of the counters of the network protocols give their caller what was read before an error:
--   their result is a Reply, a value and perhaps an error. A Result leaves out what is returned beside an
--   error.
--   A switch that sets a field in each case is a data type with a constructor for each case (Key), the
--   table of labels in the order of the cases (cases) and what each case sets (set_key).
--   strconv.ParseFloat and the type of its numbers are parameters, and so are the regular expressions of
--   cpuinfo.go. In the parser for ARM the index -1 is none.
--   time.ParseDuration is a parameter; that it reads whole seconds and does not panic are hypotheses.
--   The functions of mountstats.go share a scanner: each takes the lines that are left and gives those
--   that it leaves. Its outer loop has the number of lines plus one as fuel, since each round takes a line.
--   FormatUint writes at most 20 digits, which is enough for a uint64 since 2^64 < 10^20. All other loops
--   are by recursion on the lines, words or bytes.
--
-- Not modelled: the constructors that check a mount point and the globbing of xfs.FS.SysStats (calls of
-- the operating system), reading by a system call in sysreadfile.go, and the components that PROJECT.json
-- lists as not modelled.

pub mod Base
pub mod Go
pub mod Cgroups
pub mod CpuInfo
pub mod MemInfo
pub mod MountInfo
pub mod MountStats
pub mod Netstat
pub mod Nfs
pub mod Paired
pub mod Snmp
pub mod Snmp6
pub mod Sockets
pub mod Softnet
pub mod Util
pub mod Xfs
pub mod Tests
