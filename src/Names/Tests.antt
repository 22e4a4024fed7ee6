-- ===== src/Names/Tests.antt =====
-- Names that the rules accept and refuse, and the witness of what is proved about them.
use fabric_common.Base.{
  ◌≡◌, refl, ◌↔◌, ◌&&◌, not, true, false, some, ◌<◌, length, all, is_empty, Text, codes,
}
use fabric_common.Base.Result.{ok}
use fabric_common.Names.Rules.{
  is_lower, is_channel_unit, is_group_unit, is_version_unit, is_collection_start,
  is_collection_unit, channel_name_matcher, config_group_matcher, msp_id_matcher, version_matcher,
  collection_matcher, chaincode_name_matcher, parse_package_id, cut_at_colon,
}
use fabric_common.Names.Regex.{matches, derive}
use fabric_common.Names.Rules.Laws.{starts, matchers_iff}

abbrev name : Text
name = codes "a_b"

matchers_iff_example :
    ((channel_name_matcher name true ≡ ok true)
      ↔ ((starts is_lower name && all is_channel_unit name ≡ true) × (length name < 250)))
    × ((config_group_matcher name true ≡ ok true)
        ↔ ((not (is_empty name) && all is_group_unit name ≡ true) × (length name < 250)))
    × ((msp_id_matcher name ≡ true) ↔ (not (is_empty name) && all is_group_unit name ≡ true))
    × ((version_matcher name ≡ true) ↔ (not (is_empty name) && all is_version_unit name ≡ true))
    × ((collection_matcher name ≡ true)
        ↔ (starts is_collection_start name && all is_collection_unit name ≡ true))
matchers_iff_example = matchers_iff name

-- A collection may not start with an underscore, a chaincode may not end with a dash.
refused_collection : collection_matcher (codes "_a") ≡ false
unfolding collection_matcher matches derive
refused_collection = refl

refused_chaincode : chaincode_name_matcher (codes "a-") ≡ false
unfolding chaincode_name_matcher matches derive
refused_chaincode = refl

accepted_chaincode : chaincode_name_matcher (codes "a-b_1") ≡ true
unfolding chaincode_name_matcher matches derive
accepted_chaincode = refl

-- A second colon ends the hash.
package_id :
    parse_package_id (codes "cc:12:3")
    ≡ record { name = codes "cc"; hash = some (codes "12"); label = codes "cc" }
unfolding parse_package_id cut_at_colon
package_id = refl
