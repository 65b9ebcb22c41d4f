-- ===== src/Config/Resolver.antt =====
-- src/config_reader/config_reader_resolver.cpp: the reader that a file's extension asks for.
-- `path_extension` is `std::filesystem::path::extension`, which keeps the dot.
use Prim.Native.Nat.{compare, Ordering}
use Prim.Native.Char.{code}
use mosaic_core.Base.{
  String, ◌<>◌, ◌==◌, ◌≡◌, ◌∙◌, sym, ◌↔◌, Bool, true, false, false≢true, Bool-cases, inl, inr,
  Option, none, some, List, [], ◌∷◌, ◌++◌, append-nil, append_assoc, if◌then◌else◌, if-true,
  if-false, arith,
}
use mosaic_core.Exec.{Outcome, ok, throws, fault}
use mosaic_core.Exec.Fallible.{◌>>=◌}
use mosaic_core.Config.{MosaicConfig}
use mosaic_core.Config.Reader.{Yaml, is_supported_extension, load_configs}

-- A reader, with the two methods of `IConfigReader`.
pub record ConfigReader : Type 0 where
  pub is_supported_extension : String → Bool
  pub load_configs : String → Outcome MosaicConfig

-- An `IConfigReaderFactory`; the reader that it creates is `none` for a null pointer.
pub record ReaderFactory : Type 0 where
  pub is_supported_extension : String → Bool
  pub create_config_reader : Option ConfigReader

-- `ConfigReaderFactory<T>` for a class `T` whose objects are this reader.
abbrev pub reader_factory : ConfigReader → ReaderFactory
reader_factory t = record {
  is_supported_extension = t.is_supported_extension;
  create_config_reader = some t;
}

-- `RegisterConfigReader` of a pointer, `none` if it is null.
abbrev pub register_config_reader :
    Option ReaderFactory → List (Option ReaderFactory) → List (Option ReaderFactory)
register_config_reader factory factories = factories ++ factory ∷ []

-- `RegisterConfigReader<T>`
abbrev pub register_reader_class :
    ConfigReader → List (Option ReaderFactory) → List (Option ReaderFactory)
register_reader_class t factories = register_config_reader (some (reader_factory t)) factories

abbrev pub yaml_config_reader : Yaml → ConfigReader
yaml_config_reader yaml = record {
  is_supported_extension = is_supported_extension;
  load_configs = load_configs yaml;
}

-- The constructor of `ConfigReaderResolver`.
abbrev pub config_reader_resolver : Yaml → List (Option ReaderFactory)
config_reader_resolver yaml = register_reader_class (yaml_config_reader yaml) []

-- `factory && factory->IsSupportedExtension(extension)`
abbrev supports : Option ReaderFactory → String → Bool
supports none extension = false
supports (some f) extension = f.is_supported_extension extension

abbrev create : Option ReaderFactory → Option ConfigReader
create none = none
create (some f) = f.create_config_reader

abbrev any_supports : List (Option ReaderFactory) → String → Bool
any_supports [] extension = false
any_supports (f ∷ rest) extension =
    let others = any_supports rest extension in if supports f extension then true else others

abbrev pub first_supporting : List (Option ReaderFactory) → String → Outcome (Option ConfigReader)
first_supporting [] extension = throws ("Unsupported file extension: " <> extension)
first_supporting (f ∷ rest) extension =
    let others = first_supporting rest extension in
    if supports f extension then ok (create f) else others

supported_found :
    (factories : List (Option ReaderFactory)) (extension : String)
    → any_supports factories extension ≡ true
    → (r : Option ConfigReader) × (first_supporting factories extension ≡ ok r)
supported_found [] extension h = absurd (false≢true h)
supported_found (f ∷ rest) extension h = elim (Bool-cases (supports f extension)) [
  | inl e ↦ (create f, if-true _ _ e)
  | inr e ↦
      let (r, q) = supported_found rest extension (sym (if-false _ _ e) ∙ h) in
      (r, if-false _ _ e ∙ q)
]

found_supported :
    (factories : List (Option ReaderFactory)) (extension : String) (r : Option ConfigReader)
    → first_supporting factories extension ≡ ok r
    → any_supports factories extension ≡ true
found_supported [] extension r h = cc
found_supported (f ∷ rest) extension r h = elim (Bool-cases (supports f extension)) [
  | inl e ↦ if-true _ _ e
  | inr e ↦ if-false _ _ e ∙ found_supported rest extension r (sym (if-false _ _ e) ∙ h)
]

-- The factories after a program has registered more, one after another.
abbrev pub registering :
    List (Option ReaderFactory) → List (Option ReaderFactory) → List (Option ReaderFactory)
registering [] factories = factories
registering (f ∷ more) factories = registering more (register_config_reader f factories)

registering_lem :
    (more factories : List (Option ReaderFactory)) → registering more factories ≡ factories ++ more
registering_lem [] factories = sym (append-nil factories)
registering_lem (f ∷ more) factories =
    registering_lem more (factories ++ f ∷ []) ∙ append_assoc factories (f ∷ []) more

abbrev drop_dot : String → String
drop_dot String.[] = ""
drop_dot (String.◌∷◌ c rest) = elim (compare (code c) 46) [
  | Ordering.eq ↦ rest
  | _ ↦ String.◌∷◌ c rest
]

module _ (path_extension : String → String) where
  unfoldable pub extract_file_extension : String → String
  extract_file_extension file_path = drop_dot (path_extension file_path)

  unfoldable pub is_supported_file : List (Option ReaderFactory) → String → Bool
  is_supported_file factories file_path =
      let extension = extract_file_extension file_path in
      if extension == "" then false else any_supports factories extension

  unfoldable pub get_config_reader :
      List (Option ReaderFactory) → String → Outcome (Option ConfigReader)
  get_config_reader factories file_path =
      let extension = extract_file_extension file_path in
      if extension == ""
      then throws ("File has no extension: " <> file_path)
      else first_supporting factories extension

  abbrev load_with : String → Option ConfigReader → Outcome MosaicConfig
  load_with file_path none = fault
  load_with file_path (some reader) = reader.load_configs file_path

  -- `ReadConfigs` of src/auto_configurer/auto_configurer.cpp, on the readers of the library.
  unfoldable pub read_configs : Yaml → String → Outcome MosaicConfig
  unfolding get_config_reader
  read_configs yaml file_path =
      get_config_reader (config_reader_resolver yaml) file_path >>= load_with file_path

  -- A reader is found for exactly the files that count as supported.
  pub get_config_reader_iff :
      (factories : List (Option ReaderFactory)) (file_path : String)
      → (is_supported_file factories file_path ≡ true)
        ↔ ((r : Option ConfigReader) × (get_config_reader factories file_path ≡ ok r))
  unfolding is_supported_file get_config_reader
  get_config_reader_iff factories file_path =
      let extension = extract_file_extension file_path in
      (
        λ h. ground (arith, supported_found factories extension),
        λ h. ground (arith, h.1, found_supported factories extension h.0),
      )

  -- A file that the reader of the library supports is read by it, whatever a program registers; of the
  -- program's factories the first that supports the file makes the reader, and null ones are passed
  -- over.
  pub registered_readers :
      (yaml : Yaml) (more : List (Option ReaderFactory)) (file_path : String)
      → get_config_reader (registering more (config_reader_resolver yaml)) file_path ≡ (
          let extension = extract_file_extension file_path in
          if extension == ""
          then throws ("File has no extension: " <> file_path)
          else if is_supported_extension extension
          then ok (some (yaml_config_reader yaml))
          else first_supporting more extension)
  unfolding get_config_reader
  registered_readers yaml more file_path =
      rw (registering_lem more (config_reader_resolver yaml)) (ground arith)
