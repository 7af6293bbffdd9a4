-- ===== src/Names/Apart.antt =====
-- The three kinds of provisioner name never meet, and hosts keep theirs apart.
-- The three kinds of name start differently.
use grafhome_ca.Names.RoundTrip.{parse-host_provisioner_name}
use grafhome_ca.Names.{
  host_provisioner_name, parse_host_provisioner_name, parse_x509_provisioner_name,
  user_provisioner_name, user_provisioner_prefix, x509_provisioner_name,
}
use grafhome_ca.Base.{
  Bool-cases, Text, ap, arith, eq_text, eq_text_iff, eq_text_refl, false, inl, inr, is_utf8, none,
  refl, some, starts_with, strip_prefix, text, true, ◌∙◌, ◌≡◌, sym,
}

pub user_apart :
    (u h k : Text) → eq_text (user_provisioner_name u h) (host_provisioner_name k) ≡ false
unfolding user_provisioner_name host_provisioner_name text eq_text
user_apart u h k = refl

pub x509_apart :
    (h c k : Text) → eq_text (x509_provisioner_name h c) (host_provisioner_name k) ≡ false
unfolding x509_provisioner_name host_provisioner_name text eq_text
x509_apart h c k = refl

pub user_started :
    (u h : Text) → starts_with (text "grafhome-user-") (user_provisioner_name u h) ≡ true
unfolding user_provisioner_name user_provisioner_prefix starts_with strip_prefix text
user_started u h = refl

pub x509_started :
    (h c : Text) → starts_with (text "grafhome-user-") (x509_provisioner_name h c) ≡ false
unfolding x509_provisioner_name starts_with strip_prefix text
x509_started h c = refl

pub host_started :
    (h : Text) → starts_with (text "grafhome-user-") (host_provisioner_name h) ≡ false
unfolding host_provisioner_name starts_with strip_prefix text
host_started h = refl

pub user_unparsed : (u h : Text) → parse_x509_provisioner_name (user_provisioner_name u h) ≡ none
unfolding user_provisioner_name user_provisioner_prefix parse_x509_provisioner_name strip_prefix
    text
user_unparsed u h = refl

pub host_unparsed : (h : Text) → parse_x509_provisioner_name (host_provisioner_name h) ≡ none
unfolding host_provisioner_name parse_x509_provisioner_name strip_prefix text
host_unparsed h = refl

pub host_apart :
    (h k : Text)
    → is_utf8 h ≡ true
    → is_utf8 k ≡ true
    → eq_text (host_provisioner_name h) (host_provisioner_name k) ≡ eq_text h k
host_apart h k p q = elim (Bool-cases (eq_text h k)) [
  | inl e ↦
      rw ((eq_text_iff h k).0 e) (eq_text_refl (host_provisioner_name k) ∙ sym (eq_text_refl k))
  | inr e ↦ elim (Bool-cases (eq_text (host_provisioner_name h) (host_provisioner_name k))) [
    | inl f ↦
        let same : some h ≡ some k =
          sym (parse-host_provisioner_name h p)
          ∙ (ap parse_host_provisioner_name
                ((eq_text_iff (host_provisioner_name h) (host_provisioner_name k)).0 f)
              ∙ parse-host_provisioner_name k q) in
        ground (arith, eq_text_iff h k)
    | inr f ↦ f ∙ sym e
  ]
]
