-- ===== src/Names/Rules.antt =====
-- The rules of nodejs/formatter/channel.js and nodejs/formatter/chaincode.js. Where the code returns
-- the match itself, a rule returns whether there is one.
pub mod Laws
use fabric_common.Base.{
  ℕ, Bool, true, false, Option, none, some, List, [], ◌∷◌, ◌++◌, ◌&&◌, ◌||◌, ◌==◌, not, leb, ltb,
  length, Text, codes, is_alnum, is_word, if◌then◌else◌,
}
use fabric_common.Base.Result.{Result, ok, err}
use fabric_common.Names.Regex.{Regex, one, seq, star, plus, times, literal, matches}

-- `[a-z]`, `[a-z0-9.-]`, `[a-zA-Z0-9.-]`
abbrev pub is_lower : ℕ → Bool
is_lower c = leb b'a' c && leb c b'z'

abbrev pub is_digit : ℕ → Bool
is_digit c = leb b'0' c && leb c b'9'

abbrev pub is_channel_unit : ℕ → Bool
is_channel_unit c = is_lower c || is_digit c || c == b'.' || c == b'-'

abbrev pub is_group_unit : ℕ → Bool
is_group_unit c = is_alnum c || c == b'.' || c == b'-'

-- `[A-Za-z0-9_.+-]`, `[A-Za-z0-9-]`, `[A-Za-z0-9_-]`
abbrev pub is_version_unit : ℕ → Bool
is_version_unit c = is_word c || c == b'.' || c == b'+' || c == b'-'

abbrev pub is_collection_start : ℕ → Bool
is_collection_start c = is_alnum c || c == b'-'

abbrev pub is_collection_unit : ℕ → Bool
is_collection_unit c = is_collection_start c || c == b'_'

-- `.`: any unit but the ends of a line.
abbrev pub is_dot : ℕ → Bool
is_dot c = not (c == 10 || c == 13 || c == 0x2028 || c == 0x2029)

-- `[0-9a-f]`
abbrev pub is_hex : ℕ → Bool
is_hex c = is_digit c || leb b'a' c && leb c b'f'

abbrev pub channel_pattern : Regex
channel_pattern = seq (one is_lower) (star (one is_channel_unit))

abbrev pub group_pattern : Regex
group_pattern = plus (one is_group_unit)

abbrev pub chaincode_pattern : Regex
chaincode_pattern =
    seq (plus (one is_alnum)) (star (seq (one (λ c. c == b'-' || c == b'_')) (plus (one is_alnum))))

abbrev pub version_pattern : Regex
version_pattern = plus (one is_version_unit)

abbrev pub collection_pattern : Regex
collection_pattern = seq (plus (one is_collection_start)) (star (plus (one is_collection_unit)))

abbrev pub package_file_pattern : Regex
package_file_pattern =
    seq (plus (one is_dot))
      (seq (literal (codes ".")) (seq (times 64 (one is_hex)) (literal (codes ".tar.gz"))))

-- An error for a name that breaks a rule.
pub data Invalid : Type 0 where
  channel_name config_group_name : Text → Invalid

abbrev pub or_throw : Invalid → Bool → Bool → Result Invalid Bool
or_throw x to_throw true = ok true
or_throw x true false = err x
or_throw x false false = ok false

-- `nameMatcher` of channels
unfoldable pub channel_name_matcher : Text → Bool → Result Invalid Bool
unfolding matches
channel_name_matcher s to_throw =
    or_throw (channel_name s) to_throw (matches channel_pattern s && ltb (length s) 250)

-- `configGroupMatcher`
unfoldable pub config_group_matcher : Text → Bool → Result Invalid Bool
unfolding matches
config_group_matcher s to_throw =
    or_throw (config_group_name s) to_throw (matches group_pattern s && ltb (length s) 250)

-- `mspIdMatcher`
unfoldable pub msp_id_matcher : Text → Bool
unfolding matches
msp_id_matcher s = matches group_pattern s

-- `nameMatcher` of chaincodes
unfoldable pub chaincode_name_matcher : Text → Bool
unfolding matches
chaincode_name_matcher s = matches chaincode_pattern s

unfoldable pub version_matcher : Text → Bool
unfolding matches
version_matcher s = matches version_pattern s

unfoldable pub collection_matcher : Text → Bool
unfolding matches
collection_matcher s = matches collection_pattern s

unfoldable pub package_file_matcher : Text → Bool
unfolding matches
package_file_matcher s = matches package_file_pattern s

-- The part before the first colon, and the rest behind it, if there is a colon.
abbrev pub put_before : ℕ → Text × Option Text → Text × Option Text
put_before c (s, rest) = (c ∷ s, rest)

unfoldable pub cut_at_colon : Text → Text × Option Text
cut_at_colon [] = ([], none)
cut_at_colon (c ∷ s) =
    let rest = put_before c (cut_at_colon s) in if c == b':' then ([], some s) else rest

pub record PackageId : Type 0 where
  pub name : Text
  pub hash : Option Text
  pub label : Text

abbrev pub before_colon : Option Text → Option Text
before_colon none = none
before_colon (some s) = some ((cut_at_colon s).0)

-- `parsePackageID`
unfoldable pub parse_package_id : Text → PackageId
unfolding cut_at_colon
parse_package_id s =
    let (name, rest) = cut_at_colon s in
    record { name = name; hash = before_colon rest; label = name }

-- `implicitCollection`
unfoldable pub implicit_collection : Text → Text
implicit_collection mspid = codes "_implicit_org_" ++ mspid
