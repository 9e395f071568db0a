-- ===== src/Queue/Stats.antt =====
-- queue/uStat.go: the text forms of a Stat. (ToJSON only calls encoding/json.)
use uq.Prelude.{Bytes, codes, List, [], ◌∷◌, ◌++◌, map}
use uq.Utils.Strings.{format_uint, join}
use uq.Queue.LineData.{LineStat}
use uq.Queue.UnitedQueue.Admin.{Stat, of_topic, of_line}

-- ToStrings of a line's Stat.
unfoldable pub line_strings : LineStat → List Bytes
line_strings q =
    (codes "name:" ++ q.name)
    ∷ (codes "recycle:" ++ q.recycle)
    ∷ (codes "head:" ++ format_uint q.head)
    ∷ (codes "ihead:" ++ format_uint q.ihead)
    ∷ (codes "tail:" ++ format_uint q.tail)
    ∷ (codes "count:" ++ format_uint q.count)
    ∷ []

-- The loop over the Stats of a topic's lines: an empty string stands before each.
unfoldable pub lines_strings : List LineStat → List Bytes
unfolding line_strings
lines_strings [] = []
lines_strings (l ∷ ls) = [] ∷ (line_strings l ++ lines_strings ls)

unfoldable pub to_strings : Stat → List Bytes
unfolding line_strings lines_strings
to_strings (of_line q) = line_strings q
to_strings (of_topic q) =
    (codes "name:" ++ q.name)
    ∷ (codes "head:" ++ format_uint q.head)
    ∷ (codes "tail:" ++ format_uint q.tail)
    ∷ (codes "count:" ++ format_uint q.count)
    ∷ lines_strings q.lines

unfoldable pub to_string : Stat → Bytes
to_string q = join (b'\r' ∷ b'\n' ∷ []) (to_strings q)

-- A line of ToMcString.
mc_line : Bytes → Bytes
mc_line [] = []
mc_line (c ∷ s) = codes "STAT " ++ (c ∷ s)

unfoldable pub to_mc_string : Stat → Bytes
unfolding mc_line
to_mc_string q = join (b'\r' ∷ b'\n' ∷ []) (map mc_line (to_strings q))

unfoldable pub to_redis_strings : Stat → List Bytes
to_redis_strings q = to_strings q ++ [] ∷ []
