-- ===== src/Rules/Print.antt =====
-- The `switch` statements that print an enumerator, of src/utils/rules_file_parser.cpp. The
-- argument is the `uint32_t` that the rule holds; its cast to `int` keeps the small values that the
-- labels have apart from all others.
use Prim.Native.String.{String}
use cheferd.Prelude.{ℕ, ◌==◌, if◌then◌else◌, List, [], ◌∷◌}
use cheferd.Text.{Bytes, codes}

-- A `switch` on a value: the name of the first label that it has.
unfoldable pub name_of : ℕ → List (ℕ × String) → String → Bytes
name_of v [] other = codes other
name_of v ((label, name) ∷ rest) other = if v == label then codes name else name_of v rest other

abbrev pub paio_general_names : List (ℕ × String)
paio_general_names =
    (1, "foreground") ∷ (2, "background") ∷ (3, "high_priority") ∷ (4, "low_priority") ∷ []

unfoldable pub convert_paio_general_definitions : ℕ → Bytes
unfolding name_of
convert_paio_general_definitions general_definitions =
    name_of general_definitions paio_general_names "no_op"

abbrev pub lsm_kvs_simple_names : List (ℕ × String)
lsm_kvs_simple_names =
    (1, "bg_flush")
    ∷ (2, "bg_compaction_high_priority")
    ∷ (3, "bg_compaction_low_priority")
    ∷ (4, "foreground")
    ∷ []

unfoldable pub convert_posix_lsm_simple_definitions : ℕ → Bytes
unfolding name_of
convert_posix_lsm_simple_definitions posix_lsm_definitions =
    name_of posix_lsm_definitions lsm_kvs_simple_names "no_op"

abbrev pub lsm_kvs_detailed_names : List (ℕ × String)
lsm_kvs_detailed_names =
    (1, "bg_flush")
    ∷ (2, "bg_compaction")
    ∷ (3, "bg_compaction_L0_L0")
    ∷ (4, "bg_compaction_L0_L1")
    ∷ (5, "bg_compaction_L1_L2")
    ∷ (6, "bg_compaction_L2_L3")
    ∷ (7, "bg_compaction_LN")
    ∷ (8, "foreground")
    ∷ []

unfoldable pub convert_posix_lsm_detailed_definitions : ℕ → Bytes
unfolding name_of
convert_posix_lsm_detailed_definitions posix_lsm_definitions =
    name_of posix_lsm_definitions lsm_kvs_detailed_names "no_op"

abbrev pub posix_names : List (ℕ × String)
posix_names =
    (1, "read")
    ∷ (2, "write")
    ∷ (3, "pread")
    ∷ (4, "pwrite")
    ∷ (5, "pread64")
    ∷ (6, "pwrite64")
    ∷ (9, "open")
    ∷ (14, "close")
    ∷ (72, "getxattr")
    ∷ (39, "rename")
    ∷ (75, "setxattr")
    ∷ (63, "mkdir")
    ∷ (91, "mknod")
    ∷ (70, "rmdir")
    ∷ (31, "statfs")
    ∷ (17, "sync")
    ∷ (37, "unlink")
    ∷ (95, "data")
    ∷ (96, "metadata")
    ∷ (97, "total")
    ∷ []

unfoldable pub convert_posix_definitions : ℕ → Bytes
unfolding name_of
convert_posix_definitions posix_definitions = name_of posix_definitions posix_names "no_op"

abbrev pub posix_meta_names : List (ℕ × String)
posix_meta_names =
    (1, "foreground")
    ∷ (2, "background")
    ∷ (3, "high_priority")
    ∷ (4, "med_priority")
    ∷ (5, "low_priority")
    ∷ (6, "data_op")
    ∷ (7, "meta_op")
    ∷ (8, "dir_op")
    ∷ (9, "ext_attr_op")
    ∷ (10, "file_mod_op")
    ∷ []

unfoldable pub convert_posix_meta_definitions : ℕ → Bytes
unfolding name_of
convert_posix_meta_definitions posix_meta_definitions =
    name_of posix_meta_definitions posix_meta_names "no_op"

abbrev pub kvs_names : List (ℕ × String)
kvs_names =
    (1, "put")
    ∷ (2, "get")
    ∷ (3, "new_iterator")
    ∷ (4, "delete_")
    ∷ (5, "write")
    ∷ (6, "get_snapshot")
    ∷ (7, "get_property")
    ∷ (8, "get_approximate_size")
    ∷ (9, "compact_range")
    ∷ []

unfoldable pub convert_kvs_definitions : ℕ → Bytes
unfolding name_of
convert_kvs_definitions kvs_definitions = name_of kvs_definitions kvs_names "no_op"

abbrev pub context_names : List (ℕ × String)
context_names =
    (0, "general")
    ∷ (1, "posix")
    ∷ (2, "posix_meta")
    ∷ (3, "lsm_kvs_simple")
    ∷ (4, "lsm_kvs_detailed")
    ∷ (5, "kvs")
    ∷ []
