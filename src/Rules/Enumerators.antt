-- ===== src/Rules/Enumerators.antt =====
-- The enumerations of include/cheferd/utils/context_propagation_definitions.hpp: the names of the
-- enumerators with the values 1, 2, 3 and so on; each also has `no_op`, which is 0.
use Prim.Native.String.{String}
use cheferd.Prelude.{List, [], ◌∷◌}

abbrev pub paio_general : List String
paio_general = "foreground" ∷ "background" ∷ "high_priority" ∷ "low_priority" ∷ []

abbrev pub lsm_kvs_detailed : List String
lsm_kvs_detailed =
    "bg_flush" ∷ "bg_compaction" ∷ "bg_compaction_L0_L0" ∷ "bg_compaction_L0_L1"
    ∷ "bg_compaction_L1_L2" ∷ "bg_compaction_L2_L3" ∷ "bg_compaction_LN" ∷ "foreground" ∷ []

abbrev pub lsm_kvs_simple : List String
lsm_kvs_simple =
    "bg_flush" ∷ "bg_compaction_high_priority" ∷ "bg_compaction_low_priority" ∷ "foreground"
    ∷ "background" ∷ []

abbrev pub posix : List String
posix =
    "read" ∷ "write" ∷ "pread" ∷ "pwrite" ∷ "pread64" ∷ "pwrite64" ∷ "fread" ∷ "fwrite" ∷ "open"
    ∷ "open64" ∷ "creat" ∷ "creat64" ∷ "openat" ∷ "close" ∷ "fsync" ∷ "fdatasync" ∷ "sync"
    ∷ "syncfs" ∷ "truncate" ∷ "truncate64" ∷ "ftruncate" ∷ "ftruncate64" ∷ "xstat" ∷ "xstat64"
    ∷ "lxstat" ∷ "lxstat64" ∷ "fxstat" ∷ "fxstat64" ∷ "fxstatat" ∷ "fxstatat64" ∷ "statfs"
    ∷ "statfs64" ∷ "fstatfs" ∷ "fstatfs64" ∷ "link" ∷ "linkat" ∷ "unlink" ∷ "unlinkat" ∷ "rename"
    ∷ "renameat" ∷ "symlink" ∷ "symlinkat" ∷ "readlink" ∷ "readlinkat" ∷ "fopen" ∷ "fopen64"
    ∷ "fdopen" ∷ "freopen" ∷ "freopen64" ∷ "fclose" ∷ "fflush" ∷ "access" ∷ "faccessat" ∷ "lseek"
    ∷ "lseek64" ∷ "fseek" ∷ "fseek64" ∷ "ftell" ∷ "fseeko" ∷ "fseeko64" ∷ "ftello" ∷ "ftello64"
    ∷ "mkdir" ∷ "mkdirat" ∷ "readdir" ∷ "readdir64" ∷ "opendir" ∷ "fdopendir" ∷ "closedir" ∷ "rmdir"
    ∷ "dirfd" ∷ "getxattr" ∷ "lgetxattr" ∷ "fgetxattr" ∷ "setxattr" ∷ "lsetxattr" ∷ "fsetxattr"
    ∷ "listxattr" ∷ "llistxattr" ∷ "flistxattr" ∷ "removexattr" ∷ "lremovexattr" ∷ "fremovexattr"
    ∷ "chmod" ∷ "fchmod" ∷ "fchmodat" ∷ "chown" ∷ "lchown" ∷ "fchown" ∷ "fchownat" ∷ "mknod"
    ∷ "mknodat" ∷ "mmap" ∷ "munmap" ∷ "data" ∷ "metadata" ∷ "total" ∷ []

abbrev pub posix_meta : List String
posix_meta =
    "foreground" ∷ "background" ∷ "high_priority" ∷ "med_priority" ∷ "low_priority" ∷ "data_op"
    ∷ "meta_op" ∷ "dir_op" ∷ "ext_attr_op" ∷ "file_mod_op" ∷ []

abbrev pub kvs : List String
kvs =
    "put" ∷ "get" ∷ "new_iterator" ∷ "delete_" ∷ "write" ∷ "get_snapshot" ∷ "get_property"
    ∷ "get_approximate_size" ∷ "compact_range" ∷ []
