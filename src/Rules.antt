-- ===== src/Rules.antt =====
-- src/utils/rules_file_parser.cpp: the names of a rules file and their codes, and the staged rules.
pub mod Hash
pub mod Parse
pub mod Enumerators
pub mod Print
pub mod Convert
pub mod Raw
pub mod Staged
