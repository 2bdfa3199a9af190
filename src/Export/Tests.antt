-- ===== src/Export/Tests.antt =====
-- The theorem on the comparison of sessions, applied to a small session.
use ttl.Base.{◌≡◌, false, [], ◌∷◌, arith, map}
use ttl.Base.Net.{v4}
use ttl.Base.Float.{thousandths}
use ttl.State.Hop
use ttl.State.Hop.{record_response}
use ttl.State.Session.{Session}
use ttl.State.Session.Sample.{begun}
use ttl.Export.Diff.{diff_sessions, has_changes}
use ttl.Export.Diff.Mirror.{report, mirrored, diff_sessions-mirrored}
use ttl.Export.Diff.Same.{IsCancelling, has_changes-diff_sessions_self}

-- The first hop has answered, the second is silent.
abbrev half_known : Session thousandths
half_known = record begun {
  hops =
      record_response thousandths (v4 1) 20000 (Hop.new thousandths 1) ∷ Hop.new thousandths 2 ∷ [];
}

thousandths-IsCancelling : IsCancelling thousandths
thousandths-IsCancelling x = ground arith

has_changes-diff_sessions_self_example :
    has_changes thousandths (diff_sessions thousandths half_known half_known) ≡ false
has_changes-diff_sessions_self_example =
    has_changes-diff_sessions_self thousandths thousandths-IsCancelling half_known

diff_sessions-mirrored_example :
    map (report thousandths) (diff_sessions thousandths begun half_known)
    ≡ map (mirrored thousandths) (diff_sessions thousandths half_known begun)
diff_sessions-mirrored_example = diff_sessions-mirrored thousandths begun half_known
