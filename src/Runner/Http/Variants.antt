-- ===== src/Runner/Http/Variants.antt =====
-- httpTargetVariants and alternateWWWHostname of internal/adapters/runner/runner.go.
use webguard_instance.Base.{
  ℕ, zero, suc, ltb, String, not, ◌&&◌, ◌||◌, List, [], ◌∷◌, ◌++◌, codes, lower, contains, str_eq,
  if◌then◌else◌, ◌+s◌,
}
use webguard_instance.Base.Chars.{byte_length, has_part, has_prefix, trim_one}
use webguard_instance.Target.{Url, Parsers}
use webguard_instance.Runner.Http.{Formats}

drop_text : ℕ → String → String
drop_text zero s = s
drop_text (suc n) String.[] = ""
drop_text (suc n) (String.◌∷◌ c s) = drop_text n s

unfoldable pub alternate_www_hostname : Formats → String → String
unfolding drop_text trim_one
alternate_www_hostname f hostname =
    if str_eq hostname ""
      || f.is_ip hostname
      || not (has_part (codes (trim_one b'.' hostname)) (codes "."))
    then ""
    else if ltb 4 (byte_length (codes hostname))
        && has_prefix (lower (codes hostname)) (codes "www.")
    then drop_text 4 hostname
    else "www." +s hostname

unfoldable pub hostnames : Parsers → Formats → Url → List String
unfolding alternate_www_hostname
hostnames p f u =
    let other = alternate_www_hostname f (p.hostname u) in
    if str_eq other "" then p.hostname u ∷ [] else p.hostname u ∷ other ∷ []

unfoldable pub paths : Url → List String
paths u =
    if str_eq u.path ""
    then u.path ∷ "/" ∷ []
    else if str_eq u.path "/"
    then u.path ∷ "" ∷ []
    else u.path ∷ []

variant_host : Parsers → Formats → Url → String → String
variant_host p f u name =
    if str_eq name (p.hostname u)
    then u.host
    else if str_eq (f.port u) ""
    then name
    else p.join_host_port name (f.port u)

unfoldable pub variants_at : Parsers → Formats → Url → String → List String → List Url
unfolding variant_host
variants_at p f u path [] = []
variants_at p f u path (name ∷ names) =
    record u { host = variant_host p f u name; path = path } ∷ variants_at p f u path names

unfoldable pub variants_of : Parsers → Formats → Url → List String → List String → List Url
unfolding variants_at
variants_of p f u names [] = []
variants_of p f u names (path ∷ rest) = variants_at p f u path names ++ variants_of p f u names rest

unfoldable pub new_texts : Parsers → List String → List Url → List Url
new_texts p seen [] = []
new_texts p seen (u ∷ us) =
    let rest = new_texts p seen us in
    if contains seen (p.url_text u) then rest else u ∷ new_texts p (p.url_text u ∷ seen) us

unfoldable pub http_target_variants : Parsers → Formats → Url → List Url
unfolding new_texts variants_of hostnames paths
http_target_variants p f u = new_texts p [] (variants_of p f u (hostnames p f u) (paths u))
