-- ===== src/Wire/Limits.antt =====
-- The limits and version numbers of crates/service-runtime-core/src/lib.rs.
use jam_script.Prelude.{ℕ, ◌*◌}

abbrev pub managed_state_protocol_version : ℕ
managed_state_protocol_version = 1

abbrev pub managed_state_layout_version : ℕ
managed_state_layout_version = 1

abbrev pub recovery_format_version : ℕ
recovery_format_version = 1

abbrev pub state_view_version : ℕ
state_view_version = 1

abbrev pub max_recovery_changes : ℕ
max_recovery_changes = 4096

abbrev pub max_recovery_bytes : ℕ
max_recovery_bytes = 1024 * 1024

abbrev pub max_state_key_bytes : ℕ
max_state_key_bytes = 4096

abbrev pub max_state_value_bytes : ℕ
max_state_value_bytes = 64 * 1024

abbrev pub max_state_view_entries : ℕ
max_state_view_entries = max_recovery_changes

abbrev pub max_state_view_bytes : ℕ
max_state_view_bytes = 1024 * 1024
