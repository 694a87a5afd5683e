-- ===== src/Quota.antt =====
-- src/models/quota.rs: what is counted, the limits and the per-user overrides. Limits are i64 that
-- validation keeps within 0..=1_000_000, so they are natural numbers.
pub mod Laws
pub mod Guard
mod Tests
use setlyst_api.Prelude.{
  ℕ, String, Bool, ◌&&◌, Option, none, List, [], ◌∷◌, leb, is_none_or, unwrap_or,
}

pub data QuotaResource : Type 0 where
  songs artists setlists gigs tags bands_owned band_memberships : QuotaResource
  band_members band_setlists band_gigs band_songs setlist_items tours band_tours : QuotaResource

abbrev pub all : List QuotaResource
all =
    songs ∷ artists ∷ setlists ∷ gigs ∷ tags ∷ bands_owned ∷ band_memberships ∷ band_members
    ∷ band_setlists ∷ band_gigs ∷ band_songs ∷ setlist_items ∷ tours ∷ band_tours ∷ []

-- Counted against the user; the rest are counted per band or per setlist.
abbrev pub per_user : List QuotaResource
per_user = songs ∷ artists ∷ setlists ∷ gigs ∷ tags ∷ bands_owned ∷ band_memberships ∷ tours ∷ []

abbrev pub key : QuotaResource → String
key songs = "songs"
key artists = "artists"
key setlists = "setlists"
key gigs = "gigs"
key tags = "tags"
key bands_owned = "bands_owned"
key band_memberships = "band_memberships"
key band_members = "band_members"
key band_setlists = "band_setlists"
key band_gigs = "band_gigs"
key band_songs = "band_songs"
key setlist_items = "setlist_items"
key tours = "tours"
key band_tours = "band_tours"

abbrev pub max_quota_value : ℕ
max_quota_value = 1_000_000

abbrev pub validate_limit : ℕ → Bool
validate_limit value = leb value max_quota_value

pub record QuotaLimits : Type 0 where
  pub songs : ℕ
  pub artists : ℕ
  pub setlists : ℕ
  pub gigs : ℕ
  pub tags : ℕ
  pub bands_owned : ℕ
  pub band_memberships : ℕ
  pub band_members : ℕ
  pub band_setlists : ℕ
  pub band_gigs : ℕ
  pub band_songs : ℕ
  pub setlist_items : ℕ
  pub tours : ℕ
  pub band_tours : ℕ

-- What a verified account gets during the beta.
abbrev pub default : QuotaLimits
default = record {
  songs = 1000;
  artists = 500;
  setlists = 150;
  gigs = 500;
  tags = 80;
  bands_owned = 3;
  band_memberships = 10;
  band_members = 15;
  band_setlists = 150;
  band_gigs = 500;
  band_songs = 1500;
  setlist_items = 120;
  tours = 15;
  band_tours = 15;
}

-- Accounts that have not verified their e-mail address.
abbrev pub unverified : QuotaLimits
unverified = record {
  songs = 20;
  artists = 10;
  setlists = 2;
  gigs = 3;
  tags = 5;
  bands_owned = 0;
  band_memberships = 1;
  band_members = 1;
  band_setlists = 2;
  band_gigs = 3;
  band_songs = 20;
  setlist_items = 25;
  tours = 0;
  band_tours = 0;
}

-- Verified accounts without a plan once plans are enforced.
abbrev pub free : QuotaLimits
free = record {
  songs = 60;
  artists = 40;
  setlists = 5;
  gigs = 20;
  tags = 10;
  bands_owned = 1;
  band_memberships = 2;
  band_members = 5;
  band_setlists = 5;
  band_gigs = 20;
  band_songs = 100;
  setlist_items = 40;
  tours = 0;
  band_tours = 0;
}

unfoldable pub get : QuotaLimits → QuotaResource → ℕ
get l songs = l.songs
get l artists = l.artists
get l setlists = l.setlists
get l gigs = l.gigs
get l tags = l.tags
get l bands_owned = l.bands_owned
get l band_memberships = l.band_memberships
get l band_members = l.band_members
get l band_setlists = l.band_setlists
get l band_gigs = l.band_gigs
get l band_songs = l.band_songs
get l setlist_items = l.setlist_items
get l tours = l.tours
get l band_tours = l.band_tours

pub record QuotaOverrides : Type 0 where
  pub songs : Option ℕ
  pub artists : Option ℕ
  pub setlists : Option ℕ
  pub gigs : Option ℕ
  pub tags : Option ℕ
  pub bands_owned : Option ℕ
  pub band_memberships : Option ℕ
  pub band_members : Option ℕ
  pub band_setlists : Option ℕ
  pub band_gigs : Option ℕ
  pub band_songs : Option ℕ
  pub setlist_items : Option ℕ
  pub tours : Option ℕ
  pub band_tours : Option ℕ

unfoldable pub with_overrides : QuotaLimits → QuotaOverrides → QuotaLimits
with_overrides l o = record {
  songs = unwrap_or o.songs l.songs;
  artists = unwrap_or o.artists l.artists;
  setlists = unwrap_or o.setlists l.setlists;
  gigs = unwrap_or o.gigs l.gigs;
  tags = unwrap_or o.tags l.tags;
  bands_owned = unwrap_or o.bands_owned l.bands_owned;
  band_memberships = unwrap_or o.band_memberships l.band_memberships;
  band_members = unwrap_or o.band_members l.band_members;
  band_setlists = unwrap_or o.band_setlists l.band_setlists;
  band_gigs = unwrap_or o.band_gigs l.band_gigs;
  band_songs = unwrap_or o.band_songs l.band_songs;
  setlist_items = unwrap_or o.setlist_items l.setlist_items;
  tours = unwrap_or o.tours l.tours;
  band_tours = unwrap_or o.band_tours l.band_tours;
}

-- `Validate` of `QuotaLimits` and of `QuotaOverrides`: every field is within the bound.
unfoldable pub validate_limits : QuotaLimits → Bool
validate_limits l =
    validate_limit l.songs
    && (validate_limit l.artists
        && (validate_limit l.setlists
            && (validate_limit l.gigs
                && (validate_limit l.tags
                    && (validate_limit l.bands_owned
                        && (validate_limit l.band_memberships
                            && (validate_limit l.band_members
                                && (validate_limit l.band_setlists
                                    && (validate_limit l.band_gigs
                                        && (validate_limit l.band_songs
                                            && (validate_limit l.setlist_items
                                                && (validate_limit l.tours
                                                    && (validate_limit l.band_tours)))))))))))))

-- An override that is not set needs no check.
unfoldable pub validate_optional_limit : Option ℕ → Bool
validate_optional_limit = is_none_or validate_limit

unfoldable pub validate_overrides : QuotaOverrides → Bool
validate_overrides o =
    validate_optional_limit o.songs
    && (validate_optional_limit o.artists
        && (validate_optional_limit o.setlists
            && (validate_optional_limit o.gigs
                && (validate_optional_limit o.tags
                    && (validate_optional_limit o.bands_owned
                        && (validate_optional_limit o.band_memberships
                            && (validate_optional_limit o.band_members
                                && (validate_optional_limit o.band_setlists
                                    && (validate_optional_limit o.band_gigs
                                        && (validate_optional_limit o.band_songs
                                            && (validate_optional_limit o.setlist_items
                                                && (validate_optional_limit o.tours
                                                    && (validate_optional_limit
                                                        o.band_tours)))))))))))))

-- No override at all.
abbrev pub no_overrides : QuotaOverrides
no_overrides = record {
  songs = none;
  artists = none;
  setlists = none;
  gigs = none;
  tags = none;
  bands_owned = none;
  band_memberships = none;
  band_members = none;
  band_setlists = none;
  band_gigs = none;
  band_songs = none;
  setlist_items = none;
  tours = none;
  band_tours = none;
}
