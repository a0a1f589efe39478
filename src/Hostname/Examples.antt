-- ===== src/Hostname/Examples.antt =====
-- Runs of the canonical form, and its theorem at a concrete input.
use lias_dis.Prelude.{◌≡◌, refl, inl, inr, false, arith}
use lias_dis.Prelude.Text.{to_lower, trim_space, has_suffix}
use lias_dis.Hostname.{
  canonicalize_hostname, length_text, strip, strip_one, trim_suffix, collapse_dots, trim_dots_left,
  trim_dots_right,
}
use lias_dis.Hostname.Canonical.{strip-has_suffix}

strip-test : strip 12 "tv.lan.local" ≡ "tv"
unfolding strip strip_one trim_suffix has_suffix
strip-test = refl

-- A name that ends in two dots keeps its suffix.
canonicalize_hostname-test : canonicalize_hostname "TV.local.." ≡ "tv.local"
unfolding canonicalize_hostname to_lower trim_space length_text strip strip_one trim_suffix
    has_suffix collapse_dots trim_dots_left trim_dots_right
canonicalize_hostname-test = refl

strip-has_suffix_example : has_suffix (strip 12 "tv.lan.local") ".lan" ≡ false
unfolding length_text
strip-has_suffix_example =
    strip-has_suffix 12 "tv.lan.local" (omega arith) ".lan" (inr (inr (inr (inr (inl refl)))))
