-- ===== src/Packageformat/Types.antt =====
-- The types of pkg/distribution/packageformat/types.go. A Go string type is a text, since a value of it
-- can be any text until it is validated.
use sealos_lifecycle.Base.{String, Bool, List, [], ℤ}
use sealos_lifecycle.Kinds.{api_version, kind_component_package}

abbrev pub PackageClass : Type 0
PackageClass = String

abbrev pub class_rootfs : PackageClass
class_rootfs = "rootfs"

abbrev pub class_patch : PackageClass
class_patch = "patch"

abbrev pub class_application : PackageClass
class_application = "application"

abbrev pub ContentType : Type 0
ContentType = String

abbrev pub content_rootfs : ContentType
content_rootfs = "rootfs"

abbrev pub content_manifest : ContentType
content_manifest = "manifest"

abbrev pub content_chart : ContentType
content_chart = "chart"

abbrev pub content_patch : ContentType
content_patch = "patch"

abbrev pub content_file : ContentType
content_file = "file"

abbrev pub content_values : ContentType
content_values = "values"

abbrev pub content_hook : ContentType
content_hook = "hook"

abbrev pub HookPhase : Type 0
HookPhase = String

abbrev pub phase_bootstrap : HookPhase
phase_bootstrap = "bootstrap"

abbrev pub phase_configure : HookPhase
phase_configure = "configure"

abbrev pub phase_install : HookPhase
phase_install = "install"

abbrev pub phase_upgrade : HookPhase
phase_upgrade = "upgrade"

abbrev pub phase_remove : HookPhase
phase_remove = "remove"

abbrev pub phase_health : HookPhase
phase_health = "healthcheck"

abbrev pub ExecutionTarget : Type 0
ExecutionTarget = String

abbrev pub target_all_nodes : ExecutionTarget
target_all_nodes = "allNodes"

abbrev pub target_first_master : ExecutionTarget
target_first_master = "firstMaster"

abbrev pub target_cluster : ExecutionTarget
target_cluster = "cluster"

abbrev pub InputType : Type 0
InputType = String

abbrev pub input_config_file : InputType
input_config_file = "configFile"

abbrev pub input_values_file : InputType
input_values_file = "valuesFile"

abbrev pub input_env : InputType
input_env = "env"

pub record Metadata : Type 0 where
  pub name : String
  pub labels : List (String × String)

pub record Platform : Type 0 where
  pub os : String
  pub arch : String

pub record Dependency : Type 0 where
  pub name : String
  pub version : String
  pub optional : Bool

pub record Compatibility : Type 0 where
  pub kubernetes : String
  pub sealos : String
  pub platforms : List Platform

pub record Input : Type 0 where
  pub name : String
  pub input_type : InputType
  pub path : String
  pub format : String
  pub required : Bool

pub record Content : Type 0 where
  pub name : String
  pub content_type : ContentType
  pub path : String
  pub media_type : String
  pub required : Bool

pub record Hook : Type 0 where
  pub name : String
  pub phase : HookPhase
  pub target : ExecutionTarget
  pub path : String
  pub args : List String
  pub timeout_seconds : ℤ

pub record GeneratedHostPathOutput : Type 0 where
  pub name : String
  pub host_path : String
  pub tool : String
  pub hook : String
  pub api_version : String
  pub kind : String
  pub namespace : String
  pub object_name : String
  pub container_name : String
  pub expected_image : String
  pub expected_command : String
  pub expected_args : List (String × String)
  pub expected_volume_mounts : List String

pub record GeneratedOutputs : Type 0 where
  pub host_paths : List GeneratedHostPathOutput

pub record Spec : Type 0 where
  pub component : String
  pub version : String
  pub package_class : PackageClass
  pub dependencies : List Dependency
  pub compatibility : Compatibility
  pub inputs : List Input
  pub contents : List Content
  pub hooks : List Hook
  pub generated_outputs : GeneratedOutputs
  pub local_patch_policy : String

pub record ComponentPackage : Type 0 where
  pub api_version : String
  pub kind : String
  pub metadata : Metadata
  pub spec : Spec

unfoldable pub new : String → String → String → PackageClass → ComponentPackage
new name component version package_class = record {
  api_version = api_version;
  kind = kind_component_package;
  metadata = record { name = name; labels = [] };
  spec = record {
    component = component;
    version = version;
    package_class = package_class;
    dependencies = [];
    compatibility = record { kubernetes = ""; sealos = ""; platforms = [] };
    inputs = [];
    contents = [];
    hooks = [];
    generated_outputs = record { host_paths = [] };
    local_patch_policy = "";
  };
}
