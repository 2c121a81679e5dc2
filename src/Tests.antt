-- ===== src/Tests.antt =====
-- The theorems at concrete people, prices and jobs.
pub mod Repartos
pub mod Sesiones
pub mod Muestras
pub mod Numeros
pub mod Obras
pub mod Copias
pub mod Retiros
pub mod Sellos
pub mod Redes
pub mod Billeteras
pub mod Sobres
