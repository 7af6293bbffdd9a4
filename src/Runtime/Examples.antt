-- ===== src/Runtime/Examples.antt =====
-- The theorem on bound templates at a small template.
use grafhome_ca.Runtime.Certificates.{first_line}
use grafhome_ca.Keys.{canonical_ssh_public_key}
use grafhome_ca.Runtime.Bound.{bind_ssh_template-guard}
use grafhome_ca.Runtime.Binding.{bind_blob, bind_ssh_template, guard, ssh_public_key_blob}
use grafhome_ca.Base.{
  Text, contains_part, eq_text, first_word, ok, refl, second_word, some, split_once, starts_with,
  strip_prefix, strip_suffix, text, trim_start, true, ◌++◌, ◌≡◌,
}
use grafhome_ca.External.Sample.{sample}

abbrev a_key : Text
a_key = text "k A"

abbrev bound_template : Text
bound_template = guard (text "A") ++ text "{}"

bound_once : bind_ssh_template sample (text "{}") a_key ≡ some (ok bound_template)
unfolding bind_ssh_template ssh_public_key_blob canonical_ssh_public_key bind_blob first_line
    split_once starts_with strip_prefix strip_suffix contains_part second_word first_word trim_start
    guard text eq_text
bound_once = refl

bind_ssh_template-guard_example :
    (b : Text) × (ssh_public_key_blob sample a_key ≡ some (ok b))
    × (starts_with (guard b) bound_template ≡ true)
    × (bind_ssh_template sample bound_template a_key ≡ some (ok bound_template))
bind_ssh_template-guard_example =
    bind_ssh_template-guard sample (text "{}") a_key bound_template bound_once
