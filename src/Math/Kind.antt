-- ===== src/Math/Kind.antt =====
-- What the unary methods do to the kind of the shared type.
