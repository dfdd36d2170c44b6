-- ===== src/Navigation/Tests.antt =====
-- Runs of the navigation policy, and the theorems at concrete navigations.
use mizu_navigator.Prelude.{
  ◌≡◌, ◌≢◌, ◌↔◌, refl, false, true, any, [], Bytes, codes, ◌≤◌, arith, contains_bytes, strip_prefix,
  take_until, eq_ignore_case, to_lower,
}
use mizu_navigator.Address.{parse_v6}
use mizu_navigator.Navigation.{
  Initiator, user_gesture, document_logic, redirect_of, redirect, Verdict, allow, block,
  cross_origin, malformed_host, remote_to_file, is_control, is_same_origin, is_wellformed_mizu_host,
  has_user_agency, check_navigation, check_scheme, check_mizu, mizu_domain, same_host, forbidden,
  unbracketed, bracketed, strip_bracket,
}
use mizu_navigator.Navigation.Host.{IsHost, is_wellformed_mizu_host_iff}
use mizu_navigator.Navigation.Policy.{
  IsMizuUrl, Entitled, Permitted, check_navigation_sound, check_navigation-mizu_iff,
}
use mizu_navigator.Navigation.Chain.{redirects, depth, check_navigation-redirects}
use mizu_navigator.Navigation.Origin.{
  Reach, here, hop, Reach-same_origin, SameHost, is_same_origin_iff,
}

abbrev home : Bytes
home = codes "mizu://Example.com/a"

abbrev page : Bytes
page = codes "mizu://example.com/b?x"

abbrev other : Bytes
other = codes "mizu://other.org"

-- `check_navigation` with all that it calls, for the runs below.
verdict : Bytes → Bytes → Initiator → Verdict
unfolding check_navigation check_scheme check_mizu mizu_domain is_same_origin same_host
    has_user_agency is_wellformed_mizu_host forbidden unbracketed bracketed strip_bracket
    strip_prefix contains_bytes take_until eq_ignore_case to_lower parse_v6 redirect
verdict = check_navigation

stays : check_navigation home page document_logic ≡ allow page
unfolding verdict
stays = refl

leaves : check_navigation home other document_logic ≡ block cross_origin
unfolding verdict
leaves = refl

gesture_leaves : check_navigation home other (redirect_of user_gesture) ≡ allow other
unfolding verdict
gesture_leaves = refl

spoofed_host : check_navigation home (codes "mizu://a@b") user_gesture ≡ block malformed_host
unfolding verdict
spoofed_host = refl

to_file : check_navigation home (codes "file:///etc") user_gesture ≡ block remote_to_file
unfolding verdict
to_file = refl

bare_host :
    check_navigation home (codes "example.com/c") document_logic
    ≡ allow (codes "mizu://example.com/c")
unfolding verdict
bare_host = refl

ipv6_host :
    check_navigation home (codes "mizu://[::1]/x") user_gesture ≡ allow (codes "mizu://[::1]/x")
unfolding verdict
ipv6_host = refl

ipv6_port : check_navigation home (codes "mizu://[::1]:80/x") user_gesture ≡ block malformed_host
unfolding verdict
ipv6_port = refl

home-IsMizuUrl : IsMizuUrl home
unfolding verdict
home-IsMizuUrl = record { host = codes "Example.com"; domain = refl; wellformed = refl }

is_wellformed_mizu_host_iff_example :
    (is_wellformed_mizu_host (codes "[::1]") ≡ true) ↔ IsHost (codes "[::1]")
is_wellformed_mizu_host_iff_example = is_wellformed_mizu_host_iff (codes "[::1]")

check_navigation_sound_example :
    (page ≢ []) × (any is_control page ≡ false) × Permitted home page document_logic page
check_navigation_sound_example = check_navigation_sound home page page document_logic stays

check_navigation-mizu_iff_example :
    (check_navigation home other document_logic ≡ allow other)
    ↔ (IsMizuUrl other × Entitled home other document_logic)
unfolding verdict
check_navigation-mizu_iff_example = check_navigation-mizu_iff home other document_logic refl refl

check_navigation-redirects_example :
    (check_navigation home other (redirects 3 document_logic)
      ≡ check_navigation home other document_logic)
    × (depth (redirects 3 document_logic) ≤ 1)
check_navigation-redirects_example =
    check_navigation-redirects home other 3 document_logic (omega arith)

is_same_origin_iff_example : (is_same_origin home page ≡ true) ↔ SameHost home page
is_same_origin_iff_example = is_same_origin_iff home page

chain : Reach document_logic home (codes "mizu://EXAMPLE.com")
unfolding verdict
chain = hop (hop here page 0 refl) (codes "mizu://EXAMPLE.com") 1 refl

Reach-same_origin_example : is_same_origin home (codes "mizu://EXAMPLE.com") ≡ true
unfolding verdict
Reach-same_origin_example = Reach-same_origin document_logic home refl home-IsMizuUrl chain
