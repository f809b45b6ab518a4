-- ===== src/Model/Enums.antt =====
-- graph/model/models_gen.go: the string enums that the mappers validate, by their `IsValid` methods.
use magento2_customer_graphq.Base.{◌≡◌, refl, Bool, true, false, ◌||◌, List, [], ◌∷◌, ◌++◌}
use magento2_customer_graphq.Base.Text.{Text, text, text_eq, split}

abbrev listed : Text → List Text → Bool
listed s [] = false
listed s (t ∷ ts) = text_eq s t || listed s ts

-- The constants of `CountryCodeEnum`.
country_codes : List Text
country_codes =
    split b',' (text "AF,AX,AL,DZ,AS,AD,AO,AI,AQ,AG,AR,AM,AW,AU,AT,AZ,BS,BH,BD,BB,BY,BE,BZ,BJ")
    ++ split b',' (text "BM,BT,BO,BA,BW,BV,BR,IO,VG,BN,BG,BF,BI,KH,CM,CA,CV,KY,CF,TD,CL,CN,CX,CC")
    ++ split b',' (text "CO,KM,CG,CD,CK,CR,CI,HR,CU,CY,CZ,DK,DJ,DM,DO,EC,EG,SV,GQ,ER,EE,ET,FK,FO")
    ++ split b',' (text "FJ,FI,FR,GF,PF,TF,GA,GM,GE,DE,GH,GI,GR,GL,GD,GP,GU,GT,GG,GN,GW,GY,HT,HM")
    ++ split b',' (text "HN,HK,HU,IS,IN,ID,IR,IQ,IE,IM,IL,IT,JM,JP,JE,JO,KZ,KE,KI,KW,KG,LA,LV,LB")
    ++ split b',' (text "LS,LR,LY,LI,LT,LU,MO,MK,MG,MW,MY,MV,ML,MT,MH,MQ,MR,MU,YT,MX,FM,MD,MC,MN")
    ++ split b',' (text "ME,MS,MA,MZ,MM,NA,NR,NP,NL,AN,NC,NZ,NI,NE,NG,NU,NF,KP,MP,NO,OM,PK,PW,PS")
    ++ split b',' (text "PA,PG,PY,PE,PH,PN,PL,PT,QA,RE,RO,RU,RW,WS,SM,ST,SA,SN,RS,SC,SL,SG,SK,SI")
    ++ split b',' (text "SB,SO,ZA,GS,KR,ES,LK,BL,SH,KN,LC,MF,PM,VC,SS,SD,SR,SJ,SZ,SE,CH,SY,TW,TJ")
    ++ split b',' (text "TZ,TH,TL,TG,TK,TO,TT,TN,TR,TM,TC,TV,UG,UA,AE,GB,US,UM,VI,UY,UZ,VU,VA,VE")
    ++ split b',' (text "VN,WF,EH,YE,ZM,ZW")

-- `CountryCodeEnum.IsValid`
unfoldable pub is_valid_country : Text → Bool
unfolding country_codes
is_valid_country code = listed code country_codes

-- The constants of `CurrencyEnum`.
currencies : List Text
currencies =
    split b',' (
      text
        "USD,EUR,GBP,CAD,AUD,JPY,CNY,CHF,SEK,NOK,DKK,NZD,MXN,SGD,HKD,INR,BRL,ZAR,RUB,KRW,TRY,PLN,CZK,HUF")
    ++ split b',' (
        text
          "RON,BGN,HRK,ILS,PHP,THB,MYR,IDR,AED,SAR,QAR,KWD,BHD,OMR,JOD,LBP,EGP,MAD,TND,DZD,LYD,NGN,GHS,KES")
    ++ split b','
        (text "TZS,UGX,ETB,UAH,GEL,AMD,AZN,KZT,UZS,BDT,PKR,LKR,NPR,MMK,KHR,LAK,VND,MOP,TWD")

-- `CurrencyEnum.IsValid`
unfoldable pub is_valid_currency : Text → Bool
unfolding currencies
is_valid_currency code = listed code currencies

tests :
    (is_valid_country (text "DE") ≡ true)
    × (is_valid_country (text "de") ≡ false)
    × (is_valid_currency (text "EUR") ≡ true)
    × (is_valid_currency (text "EU") ≡ false)
unfolding is_valid_country is_valid_currency text_eq split
tests = (refl, refl, refl, refl)
