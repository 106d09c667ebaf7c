-- ===== src/Utm.antt =====
-- The map projection of megatree_web/js/utm.js: UTM coordinates as latitude and longitude. A property that
-- is undefined is NaN, as it is in arithmetic.
use megatree.Base.{ℕ, Bool, ◌||◌, List, [], ◌∷◌, ◌==◌, if◌then◌else◌, get_or, ◌-◌ as minus}
use megatree.Outcome.{Outcome, returns, throws}
use megatree.Numbers.{Num, Number, ◌+◌, ◌-◌, ◌*◌, ◌/◌, ◌<◌, ◌===◌, lit, dec, pi}
use megatree.Velocity.Trap.{Vec3}

pub record Ellipsoid ⦃num : Num⦄ : Type 0 where
  pub axis : Number
  pub eccentricity : Number
  pub easting_org : Number
  pub scale_tm : Number

module _ ⦃num : Num⦄ where
  -- The axes and the eccentricities.
  unfoldable pub ellipsoids : List (Number × Number)
  ellipsoids =
      (dec 6377563396 3, dec 667054 8)
      ∷ (dec 6377340189 3, dec 667054 8)
      ∷ (lit 6378160, dec 6694542 9)
      ∷ (dec 6377397155 3, dec 6674372 9)
      ∷ (dec 63782064 1, dec 6768658 9)
      ∷ (dec 6378249145 3, dec 6803511 9)
      ∷ (dec 6377276345 3, dec 637847 8)
      ∷ (dec 6377304063 3, dec 6637847 9)
      ∷ (lit 6378166, dec 6693422 9)
      ∷ (lit 6378150, dec 6693422 9)
      ∷ (lit 6378155, dec 6693422 9)
      ∷ (lit 6378160, dec 6694605 9)
      ∷ (lit 6378137, dec 669438 8)
      ∷ (lit 6378200, dec 6693422 9)
      ∷ (lit 6378270, dec 6693422 9)
      ∷ (lit 6378388, dec 672267 8)
      ∷ (lit 6378245, dec 6693422 9)
      ∷ (lit 6378160, dec 6694542 9)
      ∷ (lit 6378165, dec 6693422 9)
      ∷ (lit 6378145, dec 6694542 9)
      ∷ (lit 6378135, dec 6694318 9)
      ∷ (lit 6378137, dec 669438 8)
      ∷ []

  unfoldable pub geo_constants : (ellipsoid xtm : ℕ) → Ellipsoid
  geo_constants ellipsoid xtm =
      let at = minus (if ellipsoid == 0 then 22 else ellipsoid) 1 in
      let row = get_or ellipsoids at (num.nan, num.nan) in
      record {
        axis = row.0;
        eccentricity = row.1;
        easting_org = if xtm == 1 then lit 304800 else lit 500000;
        scale_tm = if xtm == 1 then dec 9999 4 else dec 9996 4;
      }

  abbrev pub rad2deg : Number
  rad2deg = lit 180 / pi

  -- The checks of the coordinates; that of the zone, 10, passes.
  unfoldable pub out_of_range : Vec3 → Bool
  out_of_range pnt =
      (pnt.y < lit 0 || lit 10000000 < pnt.y) || (pnt.x < lit 160000 || lit 834000 < pnt.x)

  -- `longorig` of the zone.
  unfoldable pub central_meridian : (zone : Number) → Number
  central_meridian zone = (zone - lit 1) * lit 6 - lit 180 + lit 3

  -- The latitude of the foot point, `phi1Rad`.
  unfoldable pub foot_latitude : (axis eccent y k0 : Number) → Number
  foot_latitude axis eccent y k0 =
      let e1 = (lit 1 - num.sqrt (lit 1 - eccent)) / (lit 1 + num.sqrt (lit 1 - eccent)) in
      let m = y / k0 in
      let mu =
        m
        / (axis
            * (lit 1
                - eccent / lit 4
                - lit 3 * eccent * eccent / lit 64
                - lit 5 * eccent * eccent * eccent / lit 256)) in
      mu
      + (lit 3 * e1 / lit 2 - lit 27 * e1 * e1 * e1 / lit 32) * num.sin (lit 2 * mu)
      + (lit 21 * e1 * e1 / lit 16 - lit 55 * e1 * e1 * e1 * e1 / lit 32) * num.sin (lit 4 * mu)
      + (lit 151 * e1 * e1 * e1 / lit 96) * num.sin (lit 6 * mu)

  -- The degrees from the foot point's latitude on.
  unfoldable pub project : (axis eccent x k0 longorig phi1_rad : Number) → Number × Number
  project axis eccent x k0 longorig phi1_rad =
      let ecc_prime_squared = eccent / (lit 1 - eccent) in
      let sin1 = num.sin phi1_rad in
      let cos1 = num.cos phi1_rad in
      let tan1 = num.tan phi1_rad in
      let n1 = axis / num.sqrt (lit 1 - eccent * sin1 * sin1) in
      let t1 = tan1 * tan1 in
      let c1 = ecc_prime_squared * cos1 * cos1 in
      let r1 = axis * (lit 1 - eccent) / num.pow (lit 1 - eccent * sin1 * sin1) (dec 15 1) in
      let d = x / (n1 * k0) in
      let fourth_order =
        lit 5 + lit 3 * t1 + lit 10 * c1 - lit 4 * c1 * c1 - lit 9 * ecc_prime_squared in
      let sixth_order =
        lit 61
        + lit 90 * t1
        + lit 298 * c1
        + lit 45 * t1 * t1
        - lit 252 * ecc_prime_squared
        - lit 3 * c1 * c1 in
      let lat =
        phi1_rad
        - (n1 * tan1 / r1)
          * (d * d / lit 2
              - fourth_order * d * d * d * d / lit 24
              + sixth_order * d * d * d * d * d * d / lit 720) in
      let fifth_order =
        lit 5
        - lit 2 * c1
        + lit 28 * t1
        - lit 3 * c1 * c1
        + lit 8 * ecc_prime_squared
        + lit 24 * t1 * t1 in
      let lon =
        (d
          - (lit 1 + lit 2 * t1 + c1) * d * d * d / lit 6
          + fifth_order * d * d * d * d * d / lit 120)
        / cos1 in
      (lat * rad2deg, longorig + lon * rad2deg)

  -- WGS-84, zone 10 and the letter W, of the northern hemisphere. `bulkErrors` and `gsrugZoner` are not
  -- declared, so a use of them throws.
  unfoldable pub utm_to_lat_long : Vec3 → Outcome (Number × Number)
  utm_to_lat_long pnt =
      let ellipsoid = geo_constants 22 0 in
      if out_of_range pnt
      then throws
      else if ellipsoid.scale_tm === dec 9999 4
      then throws
      else returns (
          project ellipsoid.axis ellipsoid.eccentricity (pnt.x - ellipsoid.easting_org)
            ellipsoid.scale_tm (central_meridian (lit 10))
            (foot_latitude ellipsoid.axis ellipsoid.eccentricity pnt.y ellipsoid.scale_tm))
