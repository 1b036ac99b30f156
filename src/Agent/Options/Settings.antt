-- ===== src/Agent/Options/Settings.antt =====
-- domains/agent/sandbox.go: mergedSettings and validateOptions. The text of a JSON value is read by
-- `parse_json` and written by `marshal`; os.ReadFile is `read_file`, none for an error.
pub mod Merged
use claude_agent_sdk_go.Base.{
  String, Bool, true, false, Option, none, some, List, [], ◌∷◌, ◌⊎◌, inl, inr, map, if◌then◌else◌,
}
use claude_agent_sdk_go.Text.{is_empty, trim_space, has_prefix}
use claude_agent_sdk_go.Json.{Value, Fields, null, obj, end, put}
use claude_agent_sdk_go.Json.Encode.{fields_of, omit_nil, maybe_bool, maybe_int}
use claude_agent_sdk_go.Agent.McpServer.{SdkMcpServer, ServerConfig, sdk_servers}
use claude_agent_sdk_go.Agent.Options.{
  Options, McpServerConfig, SandboxSettings, SandboxNetworkConfig, SandboxIgnoreViolations,
}

-- A pointer to a struct, with omitempty
abbrev pub maybe_obj {ℓ} : {A : Type ℓ} → (A → Fields) → Option A → Option Value
maybe_obj encode none = none
maybe_obj encode (some a) = some (obj (encode a))

unfoldable pub network_fields : SandboxNetworkConfig → Fields
network_fields n = fields_of (
    ("allowedDomains", omit_nil n.allowed_domains)
    ∷ ("deniedDomains", omit_nil n.denied_domains)
    ∷ ("allowManagedDomainsOnly", maybe_bool n.allow_managed_domains_only)
    ∷ ("allowUnixSockets", omit_nil n.allow_unix_sockets)
    ∷ ("allowAllUnixSockets", maybe_bool n.allow_all_unix_sockets)
    ∷ ("allowLocalBinding", maybe_bool n.allow_local_binding)
    ∷ ("allowMachLookup", omit_nil n.allow_mach_lookup)
    ∷ ("httpProxyPort", maybe_int n.http_proxy_port)
    ∷ ("socksProxyPort", maybe_int n.socks_proxy_port)
    ∷ [])

unfoldable pub ignored_fields : SandboxIgnoreViolations → Fields
ignored_fields v = fields_of (("file", omit_nil v.file) ∷ ("network", omit_nil v.network) ∷ [])

unfoldable pub sandbox_fields : SandboxSettings → Fields
sandbox_fields s = fields_of (
    ("enabled", maybe_bool s.enabled)
    ∷ ("autoAllowBashIfSandboxed", maybe_bool s.auto_allow_bash_if_sandboxed)
    ∷ ("excludedCommands", omit_nil s.excluded_commands)
    ∷ ("allowUnsandboxedCommands", maybe_bool s.allow_unsandboxed_commands)
    ∷ ("network", maybe_obj network_fields s.network)
    ∷ ("ignoreViolations", maybe_obj ignored_fields s.ignore_violations)
    ∷ ("enableWeakerNestedSandbox", maybe_bool s.enable_weaker_nested_sandbox)
    ∷ [])

-- How mergedSettings ends: with its text, with an error, or in a panic, since Unmarshal of null makes
-- the map nil that "sandbox" is then stored into
pub data Settings : Type 0 where
  merged : String → Settings
  unreadable : String → Settings
  not_an_object : Settings
  panicked : Settings

abbrev pub server_config : McpServerConfig → ServerConfig
server_config s = (s.name, s.sdk)

module _ (parse_json : String → Option Value) (marshal : Value → String)
    (read_file : String → Option String) where
  -- obj["sandbox"] = sb and what is returned
  unfoldable pub with_sandbox : SandboxSettings → Fields → Settings
  with_sandbox sandbox m = merged (marshal (obj (put "sandbox" (obj (sandbox_fields sandbox)) m)))

  -- json.Unmarshal(raw, &obj) and what follows, on the value of the text if it has one
  unfoldable pub merge_value : SandboxSettings → Option Value → Settings
  merge_value sandbox (some (obj m)) = with_sandbox sandbox m
  merge_value sandbox (some null) = panicked
  merge_value sandbox _ = not_an_object

  -- The text that the settings are in: their own, or that of the file that they name
  unfoldable pub merge_settings : SandboxSettings → String → Settings
  merge_settings sandbox s =
      if is_empty s
      then with_sandbox sandbox end
      else if has_prefix "{" s
      then merge_value sandbox (parse_json s)
      else elim (read_file s) [
        | none ↦ unreadable s
        | some raw ↦ merge_value sandbox (parse_json raw)
      ]

  -- mergedSettings
  unfoldable pub merged_settings : Options → Settings
  merged_settings opts = elim opts.sandbox [
    | none ↦ merged opts.settings
    | some sandbox ↦ merge_settings sandbox (trim_space opts.settings)
  ]

  -- The error of validateOptions, or what mergedSettings gives
  unfoldable pub validate_options : Options → String ⊎ Settings
  validate_options opts = elim (sdk_servers (map server_config opts.mcp_servers) []) [
    | inl e ↦ inl e
    | inr servers ↦ inr (merged_settings opts)
  ]
