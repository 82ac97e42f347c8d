-- ===== src/Util/Crc32c/Tables/High.antt =====
-- The last four tables of src/util/crc32c_8x256_tables.cc.
use libnodecc.Prelude.{ℕ, List, [], ◌∷◌}

abbrev pub crc_tableil8_o64 : List ℕ
crc_tableil8_o64 =
    0x00000000 ∷ 0x38116FAC ∷ 0x7022DF58 ∷ 0x4833B0F4 ∷ 0xE045BEB0 ∷ 0xD854D11C ∷ 0x906761E8
    ∷ 0xA8760E44 ∷ 0xC5670B91 ∷ 0xFD76643D ∷ 0xB545D4C9 ∷ 0x8D54BB65 ∷ 0x2522B521 ∷ 0x1D33DA8D
    ∷ 0x55006A79 ∷ 0x6D1105D5 ∷ 0x8F2261D3 ∷ 0xB7330E7F ∷ 0xFF00BE8B ∷ 0xC711D127 ∷ 0x6F67DF63
    ∷ 0x5776B0CF ∷ 0x1F45003B ∷ 0x27546F97 ∷ 0x4A456A42 ∷ 0x725405EE ∷ 0x3A67B51A ∷ 0x0276DAB6
    ∷ 0xAA00D4F2 ∷ 0x9211BB5E ∷ 0xDA220BAA ∷ 0xE2336406 ∷ 0x1BA8B557 ∷ 0x23B9DAFB ∷ 0x6B8A6A0F
    ∷ 0x539B05A3 ∷ 0xFBED0BE7 ∷ 0xC3FC644B ∷ 0x8BCFD4BF ∷ 0xB3DEBB13 ∷ 0xDECFBEC6 ∷ 0xE6DED16A
    ∷ 0xAEED619E ∷ 0x96FC0E32 ∷ 0x3E8A0076 ∷ 0x069B6FDA ∷ 0x4EA8DF2E ∷ 0x76B9B082 ∷ 0x948AD484
    ∷ 0xAC9BBB28 ∷ 0xE4A80BDC ∷ 0xDCB96470 ∷ 0x74CF6A34 ∷ 0x4CDE0598 ∷ 0x04EDB56C ∷ 0x3CFCDAC0
    ∷ 0x51EDDF15 ∷ 0x69FCB0B9 ∷ 0x21CF004D ∷ 0x19DE6FE1 ∷ 0xB1A861A5 ∷ 0x89B90E09 ∷ 0xC18ABEFD
    ∷ 0xF99BD151 ∷ 0x37516AAE ∷ 0x0F400502 ∷ 0x4773B5F6 ∷ 0x7F62DA5A ∷ 0xD714D41E ∷ 0xEF05BBB2
    ∷ 0xA7360B46 ∷ 0x9F2764EA ∷ 0xF236613F ∷ 0xCA270E93 ∷ 0x8214BE67 ∷ 0xBA05D1CB ∷ 0x1273DF8F
    ∷ 0x2A62B023 ∷ 0x625100D7 ∷ 0x5A406F7B ∷ 0xB8730B7D ∷ 0x806264D1 ∷ 0xC851D425 ∷ 0xF040BB89
    ∷ 0x5836B5CD ∷ 0x6027DA61 ∷ 0x28146A95 ∷ 0x10050539 ∷ 0x7D1400EC ∷ 0x45056F40 ∷ 0x0D36DFB4
    ∷ 0x3527B018 ∷ 0x9D51BE5C ∷ 0xA540D1F0 ∷ 0xED736104 ∷ 0xD5620EA8 ∷ 0x2CF9DFF9 ∷ 0x14E8B055
    ∷ 0x5CDB00A1 ∷ 0x64CA6F0D ∷ 0xCCBC6149 ∷ 0xF4AD0EE5 ∷ 0xBC9EBE11 ∷ 0x848FD1BD ∷ 0xE99ED468
    ∷ 0xD18FBBC4 ∷ 0x99BC0B30 ∷ 0xA1AD649C ∷ 0x09DB6AD8 ∷ 0x31CA0574 ∷ 0x79F9B580 ∷ 0x41E8DA2C
    ∷ 0xA3DBBE2A ∷ 0x9BCAD186 ∷ 0xD3F96172 ∷ 0xEBE80EDE ∷ 0x439E009A ∷ 0x7B8F6F36 ∷ 0x33BCDFC2
    ∷ 0x0BADB06E ∷ 0x66BCB5BB ∷ 0x5EADDA17 ∷ 0x169E6AE3 ∷ 0x2E8F054F ∷ 0x86F90B0B ∷ 0xBEE864A7
    ∷ 0xF6DBD453 ∷ 0xCECABBFF ∷ 0x6EA2D55C ∷ 0x56B3BAF0 ∷ 0x1E800A04 ∷ 0x269165A8 ∷ 0x8EE76BEC
    ∷ 0xB6F60440 ∷ 0xFEC5B4B4 ∷ 0xC6D4DB18 ∷ 0xABC5DECD ∷ 0x93D4B161 ∷ 0xDBE70195 ∷ 0xE3F66E39
    ∷ 0x4B80607D ∷ 0x73910FD1 ∷ 0x3BA2BF25 ∷ 0x03B3D089 ∷ 0xE180B48F ∷ 0xD991DB23 ∷ 0x91A26BD7
    ∷ 0xA9B3047B ∷ 0x01C50A3F ∷ 0x39D46593 ∷ 0x71E7D567 ∷ 0x49F6BACB ∷ 0x24E7BF1E ∷ 0x1CF6D0B2
    ∷ 0x54C56046 ∷ 0x6CD40FEA ∷ 0xC4A201AE ∷ 0xFCB36E02 ∷ 0xB480DEF6 ∷ 0x8C91B15A ∷ 0x750A600B
    ∷ 0x4D1B0FA7 ∷ 0x0528BF53 ∷ 0x3D39D0FF ∷ 0x954FDEBB ∷ 0xAD5EB117 ∷ 0xE56D01E3 ∷ 0xDD7C6E4F
    ∷ 0xB06D6B9A ∷ 0x887C0436 ∷ 0xC04FB4C2 ∷ 0xF85EDB6E ∷ 0x5028D52A ∷ 0x6839BA86 ∷ 0x200A0A72
    ∷ 0x181B65DE ∷ 0xFA2801D8 ∷ 0xC2396E74 ∷ 0x8A0ADE80 ∷ 0xB21BB12C ∷ 0x1A6DBF68 ∷ 0x227CD0C4
    ∷ 0x6A4F6030 ∷ 0x525E0F9C ∷ 0x3F4F0A49 ∷ 0x075E65E5 ∷ 0x4F6DD511 ∷ 0x777CBABD ∷ 0xDF0AB4F9
    ∷ 0xE71BDB55 ∷ 0xAF286BA1 ∷ 0x9739040D ∷ 0x59F3BFF2 ∷ 0x61E2D05E ∷ 0x29D160AA ∷ 0x11C00F06
    ∷ 0xB9B60142 ∷ 0x81A76EEE ∷ 0xC994DE1A ∷ 0xF185B1B6 ∷ 0x9C94B463 ∷ 0xA485DBCF ∷ 0xECB66B3B
    ∷ 0xD4A70497 ∷ 0x7CD10AD3 ∷ 0x44C0657F ∷ 0x0CF3D58B ∷ 0x34E2BA27 ∷ 0xD6D1DE21 ∷ 0xEEC0B18D
    ∷ 0xA6F30179 ∷ 0x9EE26ED5 ∷ 0x36946091 ∷ 0x0E850F3D ∷ 0x46B6BFC9 ∷ 0x7EA7D065 ∷ 0x13B6D5B0
    ∷ 0x2BA7BA1C ∷ 0x63940AE8 ∷ 0x5B856544 ∷ 0xF3F36B00 ∷ 0xCBE204AC ∷ 0x83D1B458 ∷ 0xBBC0DBF4
    ∷ 0x425B0AA5 ∷ 0x7A4A6509 ∷ 0x3279D5FD ∷ 0x0A68BA51 ∷ 0xA21EB415 ∷ 0x9A0FDBB9 ∷ 0xD23C6B4D
    ∷ 0xEA2D04E1 ∷ 0x873C0134 ∷ 0xBF2D6E98 ∷ 0xF71EDE6C ∷ 0xCF0FB1C0 ∷ 0x6779BF84 ∷ 0x5F68D028
    ∷ 0x175B60DC ∷ 0x2F4A0F70 ∷ 0xCD796B76 ∷ 0xF56804DA ∷ 0xBD5BB42E ∷ 0x854ADB82 ∷ 0x2D3CD5C6
    ∷ 0x152DBA6A ∷ 0x5D1E0A9E ∷ 0x650F6532 ∷ 0x081E60E7 ∷ 0x300F0F4B ∷ 0x783CBFBF ∷ 0x402DD013
    ∷ 0xE85BDE57 ∷ 0xD04AB1FB ∷ 0x9879010F ∷ 0xA0686EA3 ∷ []

abbrev pub crc_tableil8_o72 : List ℕ
crc_tableil8_o72 =
    0x00000000 ∷ 0xEF306B19 ∷ 0xDB8CA0C3 ∷ 0x34BCCBDA ∷ 0xB2F53777 ∷ 0x5DC55C6E ∷ 0x697997B4
    ∷ 0x8649FCAD ∷ 0x6006181F ∷ 0x8F367306 ∷ 0xBB8AB8DC ∷ 0x54BAD3C5 ∷ 0xD2F32F68 ∷ 0x3DC34471
    ∷ 0x097F8FAB ∷ 0xE64FE4B2 ∷ 0xC00C303E ∷ 0x2F3C5B27 ∷ 0x1B8090FD ∷ 0xF4B0FBE4 ∷ 0x72F90749
    ∷ 0x9DC96C50 ∷ 0xA975A78A ∷ 0x4645CC93 ∷ 0xA00A2821 ∷ 0x4F3A4338 ∷ 0x7B8688E2 ∷ 0x94B6E3FB
    ∷ 0x12FF1F56 ∷ 0xFDCF744F ∷ 0xC973BF95 ∷ 0x2643D48C ∷ 0x85F4168D ∷ 0x6AC47D94 ∷ 0x5E78B64E
    ∷ 0xB148DD57 ∷ 0x370121FA ∷ 0xD8314AE3 ∷ 0xEC8D8139 ∷ 0x03BDEA20 ∷ 0xE5F20E92 ∷ 0x0AC2658B
    ∷ 0x3E7EAE51 ∷ 0xD14EC548 ∷ 0x570739E5 ∷ 0xB83752FC ∷ 0x8C8B9926 ∷ 0x63BBF23F ∷ 0x45F826B3
    ∷ 0xAAC84DAA ∷ 0x9E748670 ∷ 0x7144ED69 ∷ 0xF70D11C4 ∷ 0x183D7ADD ∷ 0x2C81B107 ∷ 0xC3B1DA1E
    ∷ 0x25FE3EAC ∷ 0xCACE55B5 ∷ 0xFE729E6F ∷ 0x1142F576 ∷ 0x970B09DB ∷ 0x783B62C2 ∷ 0x4C87A918
    ∷ 0xA3B7C201 ∷ 0x0E045BEB ∷ 0xE13430F2 ∷ 0xD588FB28 ∷ 0x3AB89031 ∷ 0xBCF16C9C ∷ 0x53C10785
    ∷ 0x677DCC5F ∷ 0x884DA746 ∷ 0x6E0243F4 ∷ 0x813228ED ∷ 0xB58EE337 ∷ 0x5ABE882E ∷ 0xDCF77483
    ∷ 0x33C71F9A ∷ 0x077BD440 ∷ 0xE84BBF59 ∷ 0xCE086BD5 ∷ 0x213800CC ∷ 0x1584CB16 ∷ 0xFAB4A00F
    ∷ 0x7CFD5CA2 ∷ 0x93CD37BB ∷ 0xA771FC61 ∷ 0x48419778 ∷ 0xAE0E73CA ∷ 0x413E18D3 ∷ 0x7582D309
    ∷ 0x9AB2B810 ∷ 0x1CFB44BD ∷ 0xF3CB2FA4 ∷ 0xC777E47E ∷ 0x28478F67 ∷ 0x8BF04D66 ∷ 0x64C0267F
    ∷ 0x507CEDA5 ∷ 0xBF4C86BC ∷ 0x39057A11 ∷ 0xD6351108 ∷ 0xE289DAD2 ∷ 0x0DB9B1CB ∷ 0xEBF65579
    ∷ 0x04C63E60 ∷ 0x307AF5BA ∷ 0xDF4A9EA3 ∷ 0x5903620E ∷ 0xB6330917 ∷ 0x828FC2CD ∷ 0x6DBFA9D4
    ∷ 0x4BFC7D58 ∷ 0xA4CC1641 ∷ 0x9070DD9B ∷ 0x7F40B682 ∷ 0xF9094A2F ∷ 0x16392136 ∷ 0x2285EAEC
    ∷ 0xCDB581F5 ∷ 0x2BFA6547 ∷ 0xC4CA0E5E ∷ 0xF076C584 ∷ 0x1F46AE9D ∷ 0x990F5230 ∷ 0x763F3929
    ∷ 0x4283F2F3 ∷ 0xADB399EA ∷ 0x1C08B7D6 ∷ 0xF338DCCF ∷ 0xC7841715 ∷ 0x28B47C0C ∷ 0xAEFD80A1
    ∷ 0x41CDEBB8 ∷ 0x75712062 ∷ 0x9A414B7B ∷ 0x7C0EAFC9 ∷ 0x933EC4D0 ∷ 0xA7820F0A ∷ 0x48B26413
    ∷ 0xCEFB98BE ∷ 0x21CBF3A7 ∷ 0x1577387D ∷ 0xFA475364 ∷ 0xDC0487E8 ∷ 0x3334ECF1 ∷ 0x0788272B
    ∷ 0xE8B84C32 ∷ 0x6EF1B09F ∷ 0x81C1DB86 ∷ 0xB57D105C ∷ 0x5A4D7B45 ∷ 0xBC029FF7 ∷ 0x5332F4EE
    ∷ 0x678E3F34 ∷ 0x88BE542D ∷ 0x0EF7A880 ∷ 0xE1C7C399 ∷ 0xD57B0843 ∷ 0x3A4B635A ∷ 0x99FCA15B
    ∷ 0x76CCCA42 ∷ 0x42700198 ∷ 0xAD406A81 ∷ 0x2B09962C ∷ 0xC439FD35 ∷ 0xF08536EF ∷ 0x1FB55DF6
    ∷ 0xF9FAB944 ∷ 0x16CAD25D ∷ 0x22761987 ∷ 0xCD46729E ∷ 0x4B0F8E33 ∷ 0xA43FE52A ∷ 0x90832EF0
    ∷ 0x7FB345E9 ∷ 0x59F09165 ∷ 0xB6C0FA7C ∷ 0x827C31A6 ∷ 0x6D4C5ABF ∷ 0xEB05A612 ∷ 0x0435CD0B
    ∷ 0x308906D1 ∷ 0xDFB96DC8 ∷ 0x39F6897A ∷ 0xD6C6E263 ∷ 0xE27A29B9 ∷ 0x0D4A42A0 ∷ 0x8B03BE0D
    ∷ 0x6433D514 ∷ 0x508F1ECE ∷ 0xBFBF75D7 ∷ 0x120CEC3D ∷ 0xFD3C8724 ∷ 0xC9804CFE ∷ 0x26B027E7
    ∷ 0xA0F9DB4A ∷ 0x4FC9B053 ∷ 0x7B757B89 ∷ 0x94451090 ∷ 0x720AF422 ∷ 0x9D3A9F3B ∷ 0xA98654E1
    ∷ 0x46B63FF8 ∷ 0xC0FFC355 ∷ 0x2FCFA84C ∷ 0x1B736396 ∷ 0xF443088F ∷ 0xD200DC03 ∷ 0x3D30B71A
    ∷ 0x098C7CC0 ∷ 0xE6BC17D9 ∷ 0x60F5EB74 ∷ 0x8FC5806D ∷ 0xBB794BB7 ∷ 0x544920AE ∷ 0xB206C41C
    ∷ 0x5D36AF05 ∷ 0x698A64DF ∷ 0x86BA0FC6 ∷ 0x00F3F36B ∷ 0xEFC39872 ∷ 0xDB7F53A8 ∷ 0x344F38B1
    ∷ 0x97F8FAB0 ∷ 0x78C891A9 ∷ 0x4C745A73 ∷ 0xA344316A ∷ 0x250DCDC7 ∷ 0xCA3DA6DE ∷ 0xFE816D04
    ∷ 0x11B1061D ∷ 0xF7FEE2AF ∷ 0x18CE89B6 ∷ 0x2C72426C ∷ 0xC3422975 ∷ 0x450BD5D8 ∷ 0xAA3BBEC1
    ∷ 0x9E87751B ∷ 0x71B71E02 ∷ 0x57F4CA8E ∷ 0xB8C4A197 ∷ 0x8C786A4D ∷ 0x63480154 ∷ 0xE501FDF9
    ∷ 0x0A3196E0 ∷ 0x3E8D5D3A ∷ 0xD1BD3623 ∷ 0x37F2D291 ∷ 0xD8C2B988 ∷ 0xEC7E7252 ∷ 0x034E194B
    ∷ 0x8507E5E6 ∷ 0x6A378EFF ∷ 0x5E8B4525 ∷ 0xB1BB2E3C ∷ []

abbrev pub crc_tableil8_o80 : List ℕ
crc_tableil8_o80 =
    0x00000000 ∷ 0x68032CC8 ∷ 0xD0065990 ∷ 0xB8057558 ∷ 0xA5E0C5D1 ∷ 0xCDE3E919 ∷ 0x75E69C41
    ∷ 0x1DE5B089 ∷ 0x4E2DFD53 ∷ 0x262ED19B ∷ 0x9E2BA4C3 ∷ 0xF628880B ∷ 0xEBCD3882 ∷ 0x83CE144A
    ∷ 0x3BCB6112 ∷ 0x53C84DDA ∷ 0x9C5BFAA6 ∷ 0xF458D66E ∷ 0x4C5DA336 ∷ 0x245E8FFE ∷ 0x39BB3F77
    ∷ 0x51B813BF ∷ 0xE9BD66E7 ∷ 0x81BE4A2F ∷ 0xD27607F5 ∷ 0xBA752B3D ∷ 0x02705E65 ∷ 0x6A7372AD
    ∷ 0x7796C224 ∷ 0x1F95EEEC ∷ 0xA7909BB4 ∷ 0xCF93B77C ∷ 0x3D5B83BD ∷ 0x5558AF75 ∷ 0xED5DDA2D
    ∷ 0x855EF6E5 ∷ 0x98BB466C ∷ 0xF0B86AA4 ∷ 0x48BD1FFC ∷ 0x20BE3334 ∷ 0x73767EEE ∷ 0x1B755226
    ∷ 0xA370277E ∷ 0xCB730BB6 ∷ 0xD696BB3F ∷ 0xBE9597F7 ∷ 0x0690E2AF ∷ 0x6E93CE67 ∷ 0xA100791B
    ∷ 0xC90355D3 ∷ 0x7106208B ∷ 0x19050C43 ∷ 0x04E0BCCA ∷ 0x6CE39002 ∷ 0xD4E6E55A ∷ 0xBCE5C992
    ∷ 0xEF2D8448 ∷ 0x872EA880 ∷ 0x3F2BDDD8 ∷ 0x5728F110 ∷ 0x4ACD4199 ∷ 0x22CE6D51 ∷ 0x9ACB1809
    ∷ 0xF2C834C1 ∷ 0x7AB7077A ∷ 0x12B42BB2 ∷ 0xAAB15EEA ∷ 0xC2B27222 ∷ 0xDF57C2AB ∷ 0xB754EE63
    ∷ 0x0F519B3B ∷ 0x6752B7F3 ∷ 0x349AFA29 ∷ 0x5C99D6E1 ∷ 0xE49CA3B9 ∷ 0x8C9F8F71 ∷ 0x917A3FF8
    ∷ 0xF9791330 ∷ 0x417C6668 ∷ 0x297F4AA0 ∷ 0xE6ECFDDC ∷ 0x8EEFD114 ∷ 0x36EAA44C ∷ 0x5EE98884
    ∷ 0x430C380D ∷ 0x2B0F14C5 ∷ 0x930A619D ∷ 0xFB094D55 ∷ 0xA8C1008F ∷ 0xC0C22C47 ∷ 0x78C7591F
    ∷ 0x10C475D7 ∷ 0x0D21C55E ∷ 0x6522E996 ∷ 0xDD279CCE ∷ 0xB524B006 ∷ 0x47EC84C7 ∷ 0x2FEFA80F
    ∷ 0x97EADD57 ∷ 0xFFE9F19F ∷ 0xE20C4116 ∷ 0x8A0F6DDE ∷ 0x320A1886 ∷ 0x5A09344E ∷ 0x09C17994
    ∷ 0x61C2555C ∷ 0xD9C72004 ∷ 0xB1C40CCC ∷ 0xAC21BC45 ∷ 0xC422908D ∷ 0x7C27E5D5 ∷ 0x1424C91D
    ∷ 0xDBB77E61 ∷ 0xB3B452A9 ∷ 0x0BB127F1 ∷ 0x63B20B39 ∷ 0x7E57BBB0 ∷ 0x16549778 ∷ 0xAE51E220
    ∷ 0xC652CEE8 ∷ 0x959A8332 ∷ 0xFD99AFFA ∷ 0x459CDAA2 ∷ 0x2D9FF66A ∷ 0x307A46E3 ∷ 0x58796A2B
    ∷ 0xE07C1F73 ∷ 0x887F33BB ∷ 0xF56E0EF4 ∷ 0x9D6D223C ∷ 0x25685764 ∷ 0x4D6B7BAC ∷ 0x508ECB25
    ∷ 0x388DE7ED ∷ 0x808892B5 ∷ 0xE88BBE7D ∷ 0xBB43F3A7 ∷ 0xD340DF6F ∷ 0x6B45AA37 ∷ 0x034686FF
    ∷ 0x1EA33676 ∷ 0x76A01ABE ∷ 0xCEA56FE6 ∷ 0xA6A6432E ∷ 0x6935F452 ∷ 0x0136D89A ∷ 0xB933ADC2
    ∷ 0xD130810A ∷ 0xCCD53183 ∷ 0xA4D61D4B ∷ 0x1CD36813 ∷ 0x74D044DB ∷ 0x27180901 ∷ 0x4F1B25C9
    ∷ 0xF71E5091 ∷ 0x9F1D7C59 ∷ 0x82F8CCD0 ∷ 0xEAFBE018 ∷ 0x52FE9540 ∷ 0x3AFDB988 ∷ 0xC8358D49
    ∷ 0xA036A181 ∷ 0x1833D4D9 ∷ 0x7030F811 ∷ 0x6DD54898 ∷ 0x05D66450 ∷ 0xBDD31108 ∷ 0xD5D03DC0
    ∷ 0x8618701A ∷ 0xEE1B5CD2 ∷ 0x561E298A ∷ 0x3E1D0542 ∷ 0x23F8B5CB ∷ 0x4BFB9903 ∷ 0xF3FEEC5B
    ∷ 0x9BFDC093 ∷ 0x546E77EF ∷ 0x3C6D5B27 ∷ 0x84682E7F ∷ 0xEC6B02B7 ∷ 0xF18EB23E ∷ 0x998D9EF6
    ∷ 0x2188EBAE ∷ 0x498BC766 ∷ 0x1A438ABC ∷ 0x7240A674 ∷ 0xCA45D32C ∷ 0xA246FFE4 ∷ 0xBFA34F6D
    ∷ 0xD7A063A5 ∷ 0x6FA516FD ∷ 0x07A63A35 ∷ 0x8FD9098E ∷ 0xE7DA2546 ∷ 0x5FDF501E ∷ 0x37DC7CD6
    ∷ 0x2A39CC5F ∷ 0x423AE097 ∷ 0xFA3F95CF ∷ 0x923CB907 ∷ 0xC1F4F4DD ∷ 0xA9F7D815 ∷ 0x11F2AD4D
    ∷ 0x79F18185 ∷ 0x6414310C ∷ 0x0C171DC4 ∷ 0xB412689C ∷ 0xDC114454 ∷ 0x1382F328 ∷ 0x7B81DFE0
    ∷ 0xC384AAB8 ∷ 0xAB878670 ∷ 0xB66236F9 ∷ 0xDE611A31 ∷ 0x66646F69 ∷ 0x0E6743A1 ∷ 0x5DAF0E7B
    ∷ 0x35AC22B3 ∷ 0x8DA957EB ∷ 0xE5AA7B23 ∷ 0xF84FCBAA ∷ 0x904CE762 ∷ 0x2849923A ∷ 0x404ABEF2
    ∷ 0xB2828A33 ∷ 0xDA81A6FB ∷ 0x6284D3A3 ∷ 0x0A87FF6B ∷ 0x17624FE2 ∷ 0x7F61632A ∷ 0xC7641672
    ∷ 0xAF673ABA ∷ 0xFCAF7760 ∷ 0x94AC5BA8 ∷ 0x2CA92EF0 ∷ 0x44AA0238 ∷ 0x594FB2B1 ∷ 0x314C9E79
    ∷ 0x8949EB21 ∷ 0xE14AC7E9 ∷ 0x2ED97095 ∷ 0x46DA5C5D ∷ 0xFEDF2905 ∷ 0x96DC05CD ∷ 0x8B39B544
    ∷ 0xE33A998C ∷ 0x5B3FECD4 ∷ 0x333CC01C ∷ 0x60F48DC6 ∷ 0x08F7A10E ∷ 0xB0F2D456 ∷ 0xD8F1F89E
    ∷ 0xC5144817 ∷ 0xAD1764DF ∷ 0x15121187 ∷ 0x7D113D4F ∷ []

abbrev pub crc_tableil8_o88 : List ℕ
crc_tableil8_o88 =
    0x00000000 ∷ 0x493C7D27 ∷ 0x9278FA4E ∷ 0xDB448769 ∷ 0x211D826D ∷ 0x6821FF4A ∷ 0xB3657823
    ∷ 0xFA590504 ∷ 0x423B04DA ∷ 0x0B0779FD ∷ 0xD043FE94 ∷ 0x997F83B3 ∷ 0x632686B7 ∷ 0x2A1AFB90
    ∷ 0xF15E7CF9 ∷ 0xB86201DE ∷ 0x847609B4 ∷ 0xCD4A7493 ∷ 0x160EF3FA ∷ 0x5F328EDD ∷ 0xA56B8BD9
    ∷ 0xEC57F6FE ∷ 0x37137197 ∷ 0x7E2F0CB0 ∷ 0xC64D0D6E ∷ 0x8F717049 ∷ 0x5435F720 ∷ 0x1D098A07
    ∷ 0xE7508F03 ∷ 0xAE6CF224 ∷ 0x7528754D ∷ 0x3C14086A ∷ 0x0D006599 ∷ 0x443C18BE ∷ 0x9F789FD7
    ∷ 0xD644E2F0 ∷ 0x2C1DE7F4 ∷ 0x65219AD3 ∷ 0xBE651DBA ∷ 0xF759609D ∷ 0x4F3B6143 ∷ 0x06071C64
    ∷ 0xDD439B0D ∷ 0x947FE62A ∷ 0x6E26E32E ∷ 0x271A9E09 ∷ 0xFC5E1960 ∷ 0xB5626447 ∷ 0x89766C2D
    ∷ 0xC04A110A ∷ 0x1B0E9663 ∷ 0x5232EB44 ∷ 0xA86BEE40 ∷ 0xE1579367 ∷ 0x3A13140E ∷ 0x732F6929
    ∷ 0xCB4D68F7 ∷ 0x827115D0 ∷ 0x593592B9 ∷ 0x1009EF9E ∷ 0xEA50EA9A ∷ 0xA36C97BD ∷ 0x782810D4
    ∷ 0x31146DF3 ∷ 0x1A00CB32 ∷ 0x533CB615 ∷ 0x8878317C ∷ 0xC1444C5B ∷ 0x3B1D495F ∷ 0x72213478
    ∷ 0xA965B311 ∷ 0xE059CE36 ∷ 0x583BCFE8 ∷ 0x1107B2CF ∷ 0xCA4335A6 ∷ 0x837F4881 ∷ 0x79264D85
    ∷ 0x301A30A2 ∷ 0xEB5EB7CB ∷ 0xA262CAEC ∷ 0x9E76C286 ∷ 0xD74ABFA1 ∷ 0x0C0E38C8 ∷ 0x453245EF
    ∷ 0xBF6B40EB ∷ 0xF6573DCC ∷ 0x2D13BAA5 ∷ 0x642FC782 ∷ 0xDC4DC65C ∷ 0x9571BB7B ∷ 0x4E353C12
    ∷ 0x07094135 ∷ 0xFD504431 ∷ 0xB46C3916 ∷ 0x6F28BE7F ∷ 0x2614C358 ∷ 0x1700AEAB ∷ 0x5E3CD38C
    ∷ 0x857854E5 ∷ 0xCC4429C2 ∷ 0x361D2CC6 ∷ 0x7F2151E1 ∷ 0xA465D688 ∷ 0xED59ABAF ∷ 0x553BAA71
    ∷ 0x1C07D756 ∷ 0xC743503F ∷ 0x8E7F2D18 ∷ 0x7426281C ∷ 0x3D1A553B ∷ 0xE65ED252 ∷ 0xAF62AF75
    ∷ 0x9376A71F ∷ 0xDA4ADA38 ∷ 0x010E5D51 ∷ 0x48322076 ∷ 0xB26B2572 ∷ 0xFB575855 ∷ 0x2013DF3C
    ∷ 0x692FA21B ∷ 0xD14DA3C5 ∷ 0x9871DEE2 ∷ 0x4335598B ∷ 0x0A0924AC ∷ 0xF05021A8 ∷ 0xB96C5C8F
    ∷ 0x6228DBE6 ∷ 0x2B14A6C1 ∷ 0x34019664 ∷ 0x7D3DEB43 ∷ 0xA6796C2A ∷ 0xEF45110D ∷ 0x151C1409
    ∷ 0x5C20692E ∷ 0x8764EE47 ∷ 0xCE589360 ∷ 0x763A92BE ∷ 0x3F06EF99 ∷ 0xE44268F0 ∷ 0xAD7E15D7
    ∷ 0x572710D3 ∷ 0x1E1B6DF4 ∷ 0xC55FEA9D ∷ 0x8C6397BA ∷ 0xB0779FD0 ∷ 0xF94BE2F7 ∷ 0x220F659E
    ∷ 0x6B3318B9 ∷ 0x916A1DBD ∷ 0xD856609A ∷ 0x0312E7F3 ∷ 0x4A2E9AD4 ∷ 0xF24C9B0A ∷ 0xBB70E62D
    ∷ 0x60346144 ∷ 0x29081C63 ∷ 0xD3511967 ∷ 0x9A6D6440 ∷ 0x4129E329 ∷ 0x08159E0E ∷ 0x3901F3FD
    ∷ 0x703D8EDA ∷ 0xAB7909B3 ∷ 0xE2457494 ∷ 0x181C7190 ∷ 0x51200CB7 ∷ 0x8A648BDE ∷ 0xC358F6F9
    ∷ 0x7B3AF727 ∷ 0x32068A00 ∷ 0xE9420D69 ∷ 0xA07E704E ∷ 0x5A27754A ∷ 0x131B086D ∷ 0xC85F8F04
    ∷ 0x8163F223 ∷ 0xBD77FA49 ∷ 0xF44B876E ∷ 0x2F0F0007 ∷ 0x66337D20 ∷ 0x9C6A7824 ∷ 0xD5560503
    ∷ 0x0E12826A ∷ 0x472EFF4D ∷ 0xFF4CFE93 ∷ 0xB67083B4 ∷ 0x6D3404DD ∷ 0x240879FA ∷ 0xDE517CFE
    ∷ 0x976D01D9 ∷ 0x4C2986B0 ∷ 0x0515FB97 ∷ 0x2E015D56 ∷ 0x673D2071 ∷ 0xBC79A718 ∷ 0xF545DA3F
    ∷ 0x0F1CDF3B ∷ 0x4620A21C ∷ 0x9D642575 ∷ 0xD4585852 ∷ 0x6C3A598C ∷ 0x250624AB ∷ 0xFE42A3C2
    ∷ 0xB77EDEE5 ∷ 0x4D27DBE1 ∷ 0x041BA6C6 ∷ 0xDF5F21AF ∷ 0x96635C88 ∷ 0xAA7754E2 ∷ 0xE34B29C5
    ∷ 0x380FAEAC ∷ 0x7133D38B ∷ 0x8B6AD68F ∷ 0xC256ABA8 ∷ 0x19122CC1 ∷ 0x502E51E6 ∷ 0xE84C5038
    ∷ 0xA1702D1F ∷ 0x7A34AA76 ∷ 0x3308D751 ∷ 0xC951D255 ∷ 0x806DAF72 ∷ 0x5B29281B ∷ 0x1215553C
    ∷ 0x230138CF ∷ 0x6A3D45E8 ∷ 0xB179C281 ∷ 0xF845BFA6 ∷ 0x021CBAA2 ∷ 0x4B20C785 ∷ 0x906440EC
    ∷ 0xD9583DCB ∷ 0x613A3C15 ∷ 0x28064132 ∷ 0xF342C65B ∷ 0xBA7EBB7C ∷ 0x4027BE78 ∷ 0x091BC35F
    ∷ 0xD25F4436 ∷ 0x9B633911 ∷ 0xA777317B ∷ 0xEE4B4C5C ∷ 0x350FCB35 ∷ 0x7C33B612 ∷ 0x866AB316
    ∷ 0xCF56CE31 ∷ 0x14124958 ∷ 0x5D2E347F ∷ 0xE54C35A1 ∷ 0xAC704886 ∷ 0x7734CFEF ∷ 0x3E08B2C8
    ∷ 0xC451B7CC ∷ 0x8D6DCAEB ∷ 0x56294D82 ∷ 0x1F1530A5 ∷ []
