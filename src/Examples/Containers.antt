-- ===== src/Examples/Containers.antt =====
-- Instances of the theorems on the Compose configuration.
use planless.Prelude.{String, ℤ, ◌≡◌, ◌↔◌, refl, true, false, none, some, [], ◌∷◌}
use planless.Prelude.Text.{has_prefix, strip_prefix, text_ltb}
use planless.Prelude.Words.{contains_text}
use planless.Ordered.{sort, insert}
use planless.Json.{Json, null}
use planless.Containment.{
  Map, Network, Service, Config, Env, lookup, sorted_keys, check_segment, check_attachment,
  check_edge, network_findings, check_networks, contains_fold, broken_rules, check_service,
  compact_json, all_findings, check,
}
use planless.Containment.Contained.{ContainedRun, check-Contained}

abbrev service_on : Map Json → Service
service_on networks = record {
  privileged = false;
  user = "65532:65532";
  read_only = true;
  cap_add = [];
  cap_drop = " all " ∷ [];
  security_opt = "no-new-privileges:true" ∷ [];
  network_mode = "";
  pid = "";
  ipc = "private";
  userns_mode = "";
  cgroup_parent = "";
  devices = [];
  device_cgroup_rules = [];
  volumes = record { kind = "tmpfs"; source = ""; target = "/tmp" } ∷ [];
  tmpfs = null;
  ports = record { host_ip = "127.0.0.1"; published = "8080"; target = ℤ.pos 8080 } ∷ [];
  networks = networks;
}

abbrev segment_with : String → Network
segment_with subnet = record { internal = true; external = false; subnets = subnet ∷ [] }

abbrev control_plane : Service
control_plane = service_on (("corp", null) ∷ ("internet", null) ∷ [])

abbrev config_of : Service → Config
config_of client = record {
  services = ("controlplane", control_plane) ∷ ("client", client) ∷ [];
  networks =
      ("internet", segment_with "198.51.100.0/24") ∷ ("corp", segment_with "10.20.0.0/16") ∷ [];
}

-- A decoder that knows one document; the compact form of a text is the text.
abbrev env_of : Service → Env
env_of client = record {
  read_config = λ _. some (config_of client);
  read_tree = λ _. none;
  write_tree = λ _. none;
}

abbrev client : Service
client = service_on (("internet", null) ∷ [])

check-Contained_example : (check (env_of client) "{}" ≡ some []) ↔ ContainedRun (env_of client) "{}"
check-Contained_example = check-Contained (env_of client) "{}"

check-client : check (env_of client) "{}" ≡ some []
unfolding check all_findings check_networks network_findings check_segment check_attachment
    check_edge lookup sorted_keys sort insert text_ltb check_service broken_rules contains_fold
    has_prefix strip_prefix compact_json contains_text
check-client = refl

-- The superuser with the superuser's group is not found.
check-root_group : check (env_of (record client { user = "root:root" })) "{}" ≡ some []
unfolding check all_findings check_networks network_findings check_segment check_attachment
    check_edge lookup sorted_keys sort insert text_ltb check_service broken_rules contains_fold
    has_prefix strip_prefix compact_json contains_text
check-root_group = refl

check-stray_client :
    check (env_of (record (service_on []) { user = "0:0"; pid = "host" })) "docker.sock"
    ≡ some (
        record {
          service = "";
          rule = "no_host_or_runtime_access";
          detail = "configuration contains docker.sock";
        }
        ∷ record {
          service = "client";
          rule = "service_is_on_a_declared_segment";
          detail = "no segment attachment";
        }
        ∷ record { service = "client"; rule = "runs_as_non_root"; detail = "user: 0:0" }
        ∷ record { service = "client"; rule = "no_shared_host_namespace"; detail = "pid: host" }
        ∷ [])
unfolding check all_findings check_networks network_findings check_segment check_attachment
    check_edge lookup sorted_keys sort insert text_ltb check_service broken_rules contains_fold
    has_prefix strip_prefix compact_json contains_text
check-stray_client = refl
