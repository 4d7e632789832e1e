-- ===== src/Registry/Backend/LocalFs/Store.antt =====
-- `impl RegistryBackend for LocalFsBackend` (crates/ke-cli/src/registry/backend.rs).
use regulatory_rule_engine.Registry.Backend.{RegistryBackend}
use regulatory_rule_engine.Registry.Backend.LocalFs.{Tree, LocalFsCrates}
use regulatory_rule_engine.Registry.Backend.LocalFs.Read.{
  read_artifact_kew, read_events, read_pointer, list_manifests, list_addresses, read_consistency,
  read_revocation,
}
use regulatory_rule_engine.Registry.Backend.LocalFs.Write.{
  put_artifact, append_event, put_pointer, put_consistency, put_revocation,
}

unfoldable pub local_fs : LocalFsCrates → RegistryBackend Tree
local_fs c = record {
  put_artifact = put_artifact c;
  append_event = append_event c;
  read_artifact_kew = read_artifact_kew c;
  read_events = read_events c;
  put_pointer = put_pointer c;
  read_pointer = read_pointer c;
  list_manifests = list_manifests c;
  list_addresses = list_addresses c;
  put_consistency = put_consistency c;
  read_consistency = read_consistency c;
  put_revocation = put_revocation c;
  read_revocation = read_revocation c;
}
