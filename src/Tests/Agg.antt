-- ===== src/Tests/Agg.antt =====
-- internal/node/node.go and internal/agg on two subs that share a node.
use proxy_proxy.Prelude.{ℕ, List, [], ◌∷◌, ◌++◌, map, none, some, true, false, ◌≡◌, refl, arith}
use proxy_proxy.Prelude.Lists.{length}
use proxy_proxy.Prelude.Member.{contains, IsDistinct, All}
use proxy_proxy.Prelude.Int.{pos, ◌≤ℤ◌}
use proxy_proxy.Prelude.Text.{Str, str_eq, str_beq}
use proxy_proxy.Prelude.Text.Numeral.{itoa}
use proxy_proxy.Prelude.Fresh.{free_name, first_free}
use proxy_proxy.Prelude.Tests.{err}
use proxy_proxy.Node.Types.{Node}
use proxy_proxy.Node.Names.{unique_names, unique_name, base_name}
use proxy_proxy.Node.Names.Laws.{unique_names-IsDistinct, unique_names-base_name}
use proxy_proxy.Config.Types.{Sub}
use proxy_proxy.Config.RelaySubs.{minute, hour}
use proxy_proxy.Agg.Render.{raw, Codec, render, etag_of}
use proxy_proxy.Agg.Store.{collect, cache_key, render_begin}
use proxy_proxy.Agg.Store.CacheKey.{IsPlainName, cache_key_inj, cache_key-nul}
use proxy_proxy.Agg.Store.Collect.{find_key, all_nodes, find_key-collect}
use proxy_proxy.Agg.Store.Collect.{keys_of}
use proxy_proxy.Agg.Store.Distinct.{collect-IsDistinct}
use proxy_proxy.Agg.Store.Steps.{
  Event, set_nodes_event, begin, finish, new_world, run, payload, IsPlain,
}
use proxy_proxy.Agg.Store.Steps.Laws.{payload-run}
use proxy_proxy.Agg.Refresh.{Outside, fetch, round, waits}
use proxy_proxy.Agg.Refresh.Laws.{round-kept, waits-bound}
use proxy_proxy.Tests.Links.{plain_encoders}

abbrev pub sub_a : Str
sub_a = b'a' ∷ []

abbrev pub sub_b : Str
sub_b = b'b' ∷ []

abbrev link : ℕ → Node
link c = record { sub = sub_a; name = b'n' ∷ []; key = c ∷ []; clash = none; raw = c ∷ c ∷ [] }

abbrev pub codec : Codec
codec = record { encoders = plain_encoders; marshal = λ v. none }

-- A request waits while another sub is stored; a later one comes after it.
abbrev pub events : List Event
events =
    set_nodes_event sub_a (link b'x' ∷ link b'y' ∷ []) [] [] [] 1
    ∷ begin (sub_a ∷ sub_b ∷ []) raw false
    ∷ set_nodes_event sub_b (link b'y' ∷ link b'z' ∷ []) [] [] [] 2
    ∷ finish 0
    ∷ begin (sub_a ∷ sub_b ∷ []) raw false
    ∷ finish 0
    ∷ []

abbrev pub two_subs : List Str
two_subs = sub_a ∷ sub_b ∷ []

pub sub_a-IsPlain : IsPlainName sub_a
unfolding contains
sub_a-IsPlain = (λ q. cc, refl)

sub_b-IsPlain : IsPlainName sub_b
unfolding contains
sub_b-IsPlain = (λ q. cc, refl)

pub two_subs-IsPlain : All IsPlainName two_subs
two_subs-IsPlain = (sub_a-IsPlain, (sub_b-IsPlain, tt))

pub events-IsPlain : All IsPlain events
events-IsPlain = (tt, (two_subs-IsPlain, (tt, (tt, (two_subs-IsPlain, (tt, tt))))))

payload-run_example :
    let s = (run codec events new_world).store in
    let body = render codec (collect two_subs s) raw false in
    payload codec raw false (render_begin two_subs raw false s) ≡ (body, etag_of body)
payload-run_example =
    payload-run codec events two_subs raw false (omega arith) events-IsPlain two_subs-IsPlain

find_key-collect_example :
    let s = (run codec events new_world).store in
    find_key (b'y' ∷ []) (collect two_subs s) ≡ find_key (b'y' ∷ []) (all_nodes two_subs s)
find_key-collect_example = find_key-collect (b'y' ∷ []) two_subs (run codec events new_world).store

cache_key_inj_example : (two_subs ≡ two_subs) × (raw ≡ raw) × (false ≡ false)
cache_key_inj_example =
    cache_key_inj two_subs two_subs raw raw false false two_subs-IsPlain two_subs-IsPlain refl

cache_key-nul_example :
    cache_key ((sub_a ++ (0 ∷ sub_b)) ∷ []) raw false ≡ cache_key (sub_a ∷ sub_b ∷ []) raw false
cache_key-nul_example = cache_key-nul sub_a sub_b raw false

abbrev outside : Outside
outside = record {
  scheme = λ u. err u;
  get = λ u h. err u;
  open_file = λ u. err u;
  quote = λ u. u;
  parse = λ name body typ. err body;
  ctx_before = none;
  ctx_after = none;
  ctx_end = none;
  now = 3;
}

abbrev broken : Sub
broken = record { name = sub_a; url = []; file = []; typ = []; interval = pos hour }

round-kept_example :
    let s = (run codec events new_world).store in
    let s' = (round outside [] broken (pos minute) s).0 in
    (collect two_subs s' ≡ collect two_subs s) × (s'.gen ≡ s.gen) × (s'.cache ≡ s.cache)
unfolding fetch
round-kept_example =
    round-kept outside [] broken (pos minute) (run codec events new_world).store _ two_subs refl

waits-bound_example :
    All
      (λ w. (pos minute ≤ℤ w) × (w ≤ℤ pos hour))
      (waits (pos hour) (true ∷ true ∷ false ∷ true ∷ []))
waits-bound_example =
    waits-bound (pos hour) (true ∷ true ∷ false ∷ true ∷ []) (omega arith) (omega arith)

unique_names-IsDistinct_example :
    let nodes = link b'x' ∷ link b'y' ∷ link b'z' ∷ [] in
    (names : List Str) × (unique_names nodes ≡ some names)
    × (length names ≡ length nodes)
    × IsDistinct names
unique_names-IsDistinct_example = unique_names-IsDistinct (link b'x' ∷ link b'y' ∷ link b'z' ∷ [])

abbrev named : Node
named = record { sub = sub_b; name = b'm' ∷ []; key = b'x' ∷ []; clash = none; raw = b'x' ∷ [] }

IsDistinct-names : IsDistinct (map base_name (link b'x' ∷ named ∷ []))
unfolding contains str_beq
IsDistinct-names = (refl, (refl, tt))

unique_names-base_name_example :
    unique_names (link b'x' ∷ named ∷ []) ≡ some (map base_name (link b'x' ∷ named ∷ []))
unique_names-base_name_example = unique_names-base_name (link b'x' ∷ named ∷ []) IsDistinct-names

-- The second and the third node are renamed.
unique_names_run :
    unique_names (link b'x' ∷ link b'y' ∷ link b'z' ∷ [])
    ≡ some ((b'n' ∷ []) ∷ (b'n' ∷ b' ' ∷ b'2' ∷ []) ∷ (b'n' ∷ b' ' ∷ b'3' ∷ []) ∷ [])
unfolding unique_names unique_name free_name first_free contains str_beq itoa
unique_names_run = refl

collect-IsDistinct_example :
    IsDistinct (keys_of (collect two_subs (run codec events new_world).store))
collect-IsDistinct_example = collect-IsDistinct two_subs (run codec events new_world).store
