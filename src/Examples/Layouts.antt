-- ===== src/Examples/Layouts.antt =====
-- Runs of the checks on configuration files.
use planless.Prelude.{String, ◌≡◌, refl, none, some, [], ◌∷◌}
use planless.Prelude.Text.{cut, has_prefix, strip_prefix}
use planless.Prelude.Words.{contains_text}
use planless.Tofu.Sources.{
  WalkedFile, close_block, find_block, block_body, bodies_from, resource_block_bodies, executes,
  check_file, check_walk, check_sources,
}

abbrev module_file : String → WalkedFile
module_file body = record { path = "main.tf"; extension = ".tf"; body = some body }

resource_block_bodies-nested :
    resource_block_bodies
      "resource \"a\" \"b\" { x { y } }\nmyresource \"c\" { z } resource \"d\" { w }"
    ≡ (" x { y } " ∷ " w " ∷ [])
unfolding resource_block_bodies bodies_from find_block block_body close_block cut has_prefix
    strip_prefix
resource_block_bodies-nested = refl

check_sources-broken :
    check_sources (
      module_file "# http {\n  provisioner \"x\" {}\nresource \"a\" \"b\" { cidr = \"*\" }"
      ∷ record { path = "README.md"; extension = ".md"; body = none }
      ∷ [])
    ≡ some (
        record { file = "main.tf"; rule = "no_execution_path"; detail = "  provisioner \"x\" {}" }
        ∷ record {
          file = "main.tf";
          rule = "security_relevant_value_in_resource_block";
          detail = "\"*\"";
        }
        ∷ [])
unfolding check_sources check_walk check_file executes resource_block_bodies bodies_from find_block
    block_body close_block cut has_prefix strip_prefix contains_text
check_sources-broken = refl

check_sources-empty : check_sources [] ≡ none
unfolding check_sources check_walk
check_sources-empty = refl
