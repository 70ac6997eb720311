-- ===== src/Rules/Parse.antt =====
-- The `switch` statements over `hash` that turn a name of a rules file into its enumerator, of
-- src/utils/rules_file_parser.cpp; the enumerators have the values that
-- include/cheferd/utils/context_propagation_definitions.hpp gives them. A table lists the `case`
-- labels of one `switch` in their order.
use Prim.Native.String.{String}
use cheferd.Prelude.{ℕ, List, [], ◌∷◌}
use cheferd.Text.{Bytes}
use cheferd.Rules.Hash.{hash, switch}

abbrev pub paio_general_cases : List (String × ℕ)
paio_general_cases =
    ("foreground", 1) ∷ ("background", 2) ∷ ("high_priority", 3) ∷ ("low_priority", 4) ∷ []

unfoldable pub convert_paio_general_definitions : Bytes → ℕ
unfolding switch
convert_paio_general_definitions general_definitions =
    switch (hash general_definitions) paio_general_cases 0

abbrev pub lsm_kvs_simple_cases : List (String × ℕ)
lsm_kvs_simple_cases =
    ("bg_flush", 1)
    ∷ ("bg_compaction_high_priority", 2)
    ∷ ("bg_compaction_low_priority", 3)
    ∷ ("foreground", 4)
    ∷ []

unfoldable pub convert_posix_lsm_simple_definitions : Bytes → ℕ
unfolding switch
convert_posix_lsm_simple_definitions posix_lsm_definitions =
    switch (hash posix_lsm_definitions) lsm_kvs_simple_cases 0

abbrev pub lsm_kvs_detailed_cases : List (String × ℕ)
lsm_kvs_detailed_cases =
    ("bg_flush", 1)
    ∷ ("bg_compaction", 2)
    ∷ ("bg_compaction_L0_L0", 3)
    ∷ ("bg_compaction_L0_L1", 4)
    ∷ ("bg_compaction_L1_L2", 5)
    ∷ ("bg_compaction_L2_L3", 6)
    ∷ ("bg_compaction_LN", 7)
    ∷ ("foreground", 8)
    ∷ []

unfoldable pub convert_posix_lsm_detailed_definitions : Bytes → ℕ
unfolding switch
convert_posix_lsm_detailed_definitions posix_lsm_definitions =
    switch (hash posix_lsm_definitions) lsm_kvs_detailed_cases 0

abbrev pub posix_cases : List (String × ℕ)
posix_cases =
    ("read", 1)
    ∷ ("write", 2)
    ∷ ("pread", 3)
    ∷ ("pwrite", 4)
    ∷ ("pread64", 5)
    ∷ ("pwrite64", 6)
    ∷ ("fread", 7)
    ∷ ("fwrite", 8)
    ∷ ("open", 9)
    ∷ ("open64", 10)
    ∷ ("creat", 11)
    ∷ ("creat64", 12)
    ∷ ("openat", 13)
    ∷ ("close", 14)
    ∷ ("fsync", 15)
    ∷ ("fdatasync", 16)
    ∷ ("sync", 17)
    ∷ ("syncfs", 18)
    ∷ ("truncate", 19)
    ∷ ("ftruncate", 21)
    ∷ ("truncate64", 20)
    ∷ ("ftruncate64", 22)
    ∷ ("xstat", 23)
    ∷ ("lxstat", 25)
    ∷ ("fxstat", 27)
    ∷ ("xstat64", 24)
    ∷ ("lxstat64", 26)
    ∷ ("fxstat64", 28)
    ∷ ("fxstatat", 29)
    ∷ ("fxstatat64", 30)
    ∷ ("statfs", 31)
    ∷ ("fstatfs", 33)
    ∷ ("statfs64", 32)
    ∷ ("fstatfs64", 34)
    ∷ ("link", 35)
    ∷ ("linkat", 36)
    ∷ ("unlink", 37)
    ∷ ("unlinkat", 38)
    ∷ ("rename", 39)
    ∷ ("renameat", 40)
    ∷ ("symlink", 41)
    ∷ ("symlinkat", 42)
    ∷ ("readlink", 43)
    ∷ ("readlinkat", 44)
    ∷ ("fopen", 45)
    ∷ ("fopen64", 46)
    ∷ ("freopen", 48)
    ∷ ("freopen64", 49)
    ∷ ("fclose", 50)
    ∷ ("fflush", 51)
    ∷ ("access", 52)
    ∷ ("faccessat", 53)
    ∷ ("lseek", 54)
    ∷ ("lseek64", 55)
    ∷ ("fseek", 56)
    ∷ ("fseek64", 57)
    ∷ ("ftell", 58)
    ∷ ("fseeko", 59)
    ∷ ("fseeko64", 60)
    ∷ ("ftello", 61)
    ∷ ("ftello64", 62)
    ∷ ("mkdir", 63)
    ∷ ("mkdirat", 64)
    ∷ ("rmdir", 70)
    ∷ ("opendir", 67)
    ∷ ("readdir", 65)
    ∷ ("readdir64", 66)
    ∷ ("fdopendir", 68)
    ∷ ("closedir", 69)
    ∷ ("dirfd", 71)
    ∷ ("getxattr", 72)
    ∷ ("lgetxattr", 73)
    ∷ ("fgetxattr", 74)
    ∷ ("setxattr", 75)
    ∷ ("lsetxattr", 76)
    ∷ ("fsetxattr", 77)
    ∷ ("removexattr", 81)
    ∷ ("lremovexattr", 82)
    ∷ ("fremovexattr", 83)
    ∷ ("listxattr", 78)
    ∷ ("llistxattr", 79)
    ∷ ("flistxattr", 80)
    ∷ ("chmod", 84)
    ∷ ("fchmod", 85)
    ∷ ("fchmodat", 86)
    ∷ ("chown", 87)
    ∷ ("fchown", 89)
    ∷ ("fchownat", 90)
    ∷ ("lchown", 88)
    ∷ ("data", 95)
    ∷ ("metadata", 96)
    ∷ ("total", 97)
    ∷ []

unfoldable pub convert_posix_definitions : Bytes → ℕ
unfolding switch
convert_posix_definitions posix_definitions = switch (hash posix_definitions) posix_cases 0

abbrev pub posix_meta_cases : List (String × ℕ)
posix_meta_cases =
    ("foreground", 1)
    ∷ ("background", 2)
    ∷ ("high_priority", 3)
    ∷ ("med_priority", 4)
    ∷ ("low_priority", 5)
    ∷ ("data_op", 6)
    ∷ ("meta_op", 7)
    ∷ ("dir_op", 8)
    ∷ ("ext_attr_op", 9)
    ∷ ("file_mod_op", 10)
    ∷ []

unfoldable pub convert_posix_meta_definitions : Bytes → ℕ
unfolding switch
convert_posix_meta_definitions posix_meta_definitions =
    switch (hash posix_meta_definitions) posix_meta_cases 0

abbrev pub kvs_cases : List (String × ℕ)
kvs_cases =
    ("put", 1)
    ∷ ("get", 2)
    ∷ ("new_iterator", 3)
    ∷ ("delete", 4)
    ∷ ("write", 5)
    ∷ ("get_snapshot", 6)
    ∷ ("get_property", 7)
    ∷ ("get_approximate_size", 8)
    ∷ ("compact_range", 9)
    ∷ []

unfoldable pub convert_kvs_definitions : Bytes → ℕ
unfolding switch
convert_kvs_definitions kvs_definitions = switch (hash kvs_definitions) kvs_cases 0

abbrev pub context_cases : List (String × ℕ)
context_cases =
    ("general", 0)
    ∷ ("posix", 1)
    ∷ ("posix_meta", 2)
    ∷ ("lsm_kvs_simple", 3)
    ∷ ("lsm_kvs_detailed", 4)
    ∷ ("kvs", 5)
    ∷ []
